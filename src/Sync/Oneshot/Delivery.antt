-- ===== src/Sync/Oneshot/Delivery.antt =====
-- sync/mpsc/oneshot.rs: what becomes of the message.
use rust_libstd.Prelude.{
  ℕ, ◌≡◌, Bool, true, false, Option, none, some, List, [], ◌∷◌, replicate, arith,
}
use rust_libstd.Sync.Oneshot.{
  Word, empty, Sending, idle, Receiving, loads, blocks, waits, aborts, aborts_at, abort_checks,
  tries, swaps_back, takes, takes_last, MyUpgrade, nothing_sent, NextPort, Channel, new,
}
use rust_libstd.Sync.Oneshot.Send.{sender_goes}
use rust_libstd.Sync.Oneshot.Receive.{receiver_goes}
use rust_libstd.Sync.Oneshot.Run.{Event, sender_runs, receiver_runs, step, run}
use rust_libstd.Sync.Oneshot.Table.{Letter, unsent, held, full, spent, lost, odd, letter}
use rust_libstd.Sync.Oneshot.Order.{InOrder, now, channel}
use rust_libstd.Sync.Oneshot.Sound.{Agrees, Sound, step-Sound, run-Sound_from, run-Sound}
use rust_libstd.Sync.Oneshot.Progress.{rests_or_waits, finish, finish-Sound, finish-rests}

-- The receiver is in a `recv` or `try_recv` that has not yet seen the last of the channel.
abbrev pub receiving : Receiving → Bool
receiving (loads b) = true
receiving (blocks b) = true
receiving (waits b n) = true
receiving (aborts n) = true
receiving (aborts_at n) = true
receiving abort_checks = true
receiving (tries b) = true
receiving swaps_back = true
receiving takes = true
receiving takes_last = true
receiving r = false

-- The message is received, or will be.
abbrev due : Receiving → Letter → Bool
due r spent = true
due r full = receiving r
due r unsent = false
due r held = false
due r lost = false
due r odd = false

module _ {A R : Type 0} where
  receiver-due :
      (r : Receiving) (w : Word) (o acc rcv : Option A) (u : MyUpgrade R) (wk : ℕ → Bool) (nt : ℕ)
      (np : NextPort) (s : Sending A R)
      → InOrder (channel w o u wk nt np s r acc rcv)
      → due r (letter acc o rcv) ≡ true
      → due
          (receiver_goes r (channel w o u wk nt np s r acc rcv)).receiver
          (now (receiver_goes r (channel w o u wk nt np s r acc rcv)))
        ≡ true
  receiver-due (loads true) empty none none none u wk nt np idle ord h = ground arith
  receiver-due r w o acc rcv u wk nt np s ord h = ground arith

  sender-due :
      (s : Sending A R) (w : Word) (o acc rcv : Option A) (u : MyUpgrade R) (wk : ℕ → Bool) (nt : ℕ)
      (np : NextPort) (r : Receiving)
      → InOrder (channel w o u wk nt np s r acc rcv)
      → due r (letter acc o rcv) ≡ true
      → due
          (sender_goes s (channel w o u wk nt np s r acc rcv)).receiver
          (now (sender_goes s (channel w o u wk nt np s r acc rcv)))
        ≡ true
  sender-due idle empty none none none nothing_sent wk nt np (loads true) ord h = ground arith
  sender-due s w o acc rcv u wk nt np r ord h = ground arith

  receiver-accepted :
      (r : Receiving) (w : Word) (o acc rcv : Option A) (u : MyUpgrade R) (wk : ℕ → Bool) (nt : ℕ)
      (np : NextPort) (s : Sending A R)
      → (receiver_goes r (channel w o u wk nt np s r acc rcv)).accepted ≡ acc
  receiver-accepted (loads true) empty none none none u wk nt np idle = ground arith
  receiver-accepted r w o acc rcv u wk nt np s = ground arith

  sender-accepted :
      (s : Sending A R) (w : Word) (o rcv : Option A) (v : A) (u : MyUpgrade R) (wk : ℕ → Bool)
      (nt : ℕ) (np : NextPort) (r : Receiving)
      → InOrder (channel w o u wk nt np s r (some v) rcv)
      → (sender_goes s (channel w o u wk nt np s r (some v) rcv)).accepted ≡ some v
  sender-accepted idle empty none none v nothing_sent wk nt np (loads true) ord = ground arith
  sender-accepted s w o rcv v u wk nt np r ord = ground arith

  Due : A → Channel A R → Type 0
  Due v s = (due s.receiver (now s) ≡ true) × (s.accepted ≡ some v)

  step-Due : (e : Event A R) (s : Channel A R) (v : A) → InOrder s → Due v s → Due v (step e s)
  unfolding step Due
  step-Due sender_runs s v ord h = (
    sender-due s.sender s.state s.item s.accepted s.received s.upgrade s.woken s.next_token
        s.next_port s.receiver ord h.0,
    ground (
      arith,
      sender-accepted s.sender s.state s.item s.received v s.upgrade s.woken s.next_token
          s.next_port s.receiver,
    ),
  )
  step-Due receiver_runs s v ord h = (
    receiver-due s.receiver s.state s.item s.accepted s.received s.upgrade s.woken s.next_token
        s.next_port s.sender ord h.0,
    cc (
      receiver-accepted s.receiver s.state s.item s.accepted s.received s.upgrade s.woken
          s.next_token s.next_port s.sender,
      h.1,
    ),
  )
  step-Due e s v ord h = (ground arith, ground arith)

  run-Due : (es : List (Event A R)) (s : Channel A R) (v : A) → Sound s → Due v s → Due v (run es s)
  unfolding run
  run-Due [] s v good h = h
  run-Due (e ∷ es) s v good h =
      run-Due es (step e s) v (step-Sound e s good) (step-Due e s v good.order h)

  due-received :
      (s : Sending A R) (w : Word) (o acc rcv : Option A) (v : A) (u : MyUpgrade R) (wk : ℕ → Bool)
      (nt : ℕ) (np : NextPort) (r : Receiving)
      → InOrder (channel w o u wk nt np s r acc rcv)
      → Agrees acc o rcv
      → due r (letter acc o rcv) ≡ true
      → acc ≡ some v
      → rests_or_waits r w ≡ true
      → rcv ≡ some v
  due-received idle empty none none none v nothing_sent wk nt np (loads true) ord same h e q =
      ground arith
  due-received s w o acc rcv v u wk nt np r ord same h e q = ground arith

  Due-received :
      (s : Channel A R) (v : A)
      → Sound s
      → Due v s
      → rests_or_waits s.receiver s.state ≡ true
      → s.received ≡ some v
  unfolding Due
  Due-received s v good h q =
      due-received s.sender s.state s.item s.accepted s.received v s.upgrade s.woken s.next_token
        s.next_port s.receiver good.order good.agree h.0 h.1 q

  receiving-due :
      (s : Sending A R) (w : Word) (o acc rcv : Option A) (v : A) (u : MyUpgrade R) (wk : ℕ → Bool)
      (nt : ℕ) (np : NextPort) (r : Receiving)
      → InOrder (channel w o u wk nt np s r acc rcv)
      → acc ≡ some v
      → receiving r ≡ true
      → due r (letter acc o rcv) ≡ true
  receiving-due idle empty none none none v nothing_sent wk nt np (loads true) ord e h =
      ground arith
  receiving-due s w o acc rcv v u wk nt np r ord e h = ground arith

  receiving-Due :
      (s : Channel A R) (v : A)
      → Sound s
      → s.accepted ≡ some v
      → receiving s.receiver ≡ true
      → Due v s
  unfolding Due
  receiving-Due s v good e h = (
    receiving-due s.sender s.state s.item s.accepted s.received v s.upgrade s.woken s.next_token
        s.next_port s.receiver good.order e h,
    e,
  )

  -- Where the message of a oneshot channel is accepted while the receiver is in a recv or try_recv
  -- that has not given the channel up, then whatever happens next, once the sender has had seven
  -- more steps and then the receiver nine, that message is received.
  pub run-received :
      (es fs : List (Event A R)) (v : A)
      → (run es new).accepted ≡ some v
      → receiving (run es new).receiver ≡ true
      → (finish (run fs (run es new))).received ≡ some v
  unfolding finish
  run-received es fs v e h =
      let s = run es new in
      let t = run fs s in
      let good = run-Sound_from fs s (run-Sound es) in
      let waiting = run-Due fs s v (run-Sound es) (receiving-Due s v (run-Sound es) e h) in
      let sending = run-Due (replicate 7 sender_runs) t v good waiting in
      let sent_all = run-Sound_from (replicate 7 sender_runs) t good in
      Due-received (finish t) v (finish-Sound t good)
        (run-Due (replicate 9 receiver_runs) (run (replicate 7 sender_runs) t) v sent_all sending)
        (finish-rests t good).1
