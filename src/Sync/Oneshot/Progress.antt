-- ===== src/Sync/Oneshot/Progress.antt =====
-- sync/mpsc/oneshot.rs: each call ends after a few steps of its own thread, but for a `recv` that
-- waits for a message.
use rust_libstd.Prelude.{
  ℕ, zero, suc, ◌-◌, ◌≤◌, ◌≡◌, Bool, true, false, if◌then◌else◌, Option, none, List, refl, ap,
  replicate, arith,
}
use rust_libstd.Sync.Oneshot.{
  Word, empty, Sending, idle, checks, writes, marks, swaps, signals, undoes, unmarks, retakes,
  upgrades, goes_up, swaps_up, sends_up, restores, wakes, leaves, drops, signals_drop, gone,
  panicked, unwrap_failed, Receiving, resting, loads, blocks, waits, aborts, aborts_at,
  abort_checks, abort_upgrades, tries, swaps_back, takes, takes_last, takes_upgrade, drops_port,
  discards, closed, failed, MyUpgrade, nothing_sent, NextPort, dropped, Channel, new,
}
use rust_libstd.Sync.Oneshot.Send.{sender_goes}
use rust_libstd.Sync.Oneshot.Receive.{receiver_goes}
use rust_libstd.Sync.Oneshot.Run.{Event, sender_runs, receiver_runs, step, run}
use rust_libstd.Sync.Oneshot.Order.{InOrder, channel}
use rust_libstd.Sync.Oneshot.Ports.{Handed}
use rust_libstd.Sync.Oneshot.Tokens.{Tokened, in_state, heard}
use rust_libstd.Sync.Oneshot.Sound.{Sound, step-Sound, run-Sound_from, run-Sound}

-- How many steps of its own a thread is at most from the end of its call.
abbrev pub sender_rank : {A R : Type 0} → Sending A R → ℕ
sender_rank idle = 0
sender_rank (checks t) = 7
sender_rank (writes t) = 6
sender_rank marks = 5
sender_rank swaps = 4
sender_rank (signals n) = 1
sender_rank undoes = 3
sender_rank unmarks = 2
sender_rank retakes = 1
sender_rank (upgrades r) = 7
sender_rank (goes_up r b) = 6
sender_rank (swaps_up b) = 5
sender_rank (restores b) = 3
sender_rank (sends_up n) = 4
sender_rank (wakes n) = 3
sender_rank leaves = 2
sender_rank drops = 2
sender_rank (signals_drop n) = 1
sender_rank gone = 0
sender_rank panicked = 0
sender_rank unwrap_failed = 0

abbrev pub receiver_rank : Receiving → (ℕ → Bool) → ℕ
receiver_rank resting wk = 0
receiver_rank (loads b) wk = 7
receiver_rank (blocks b) wk = 6
receiver_rank (waits b n) wk = if wk n then 6 else 0
receiver_rank (aborts n) wk = 9
receiver_rank (aborts_at n) wk = 8
receiver_rank abort_checks wk = 7
receiver_rank abort_upgrades wk = 6
receiver_rank (tries b) wk = 5
receiver_rank swaps_back wk = 2
receiver_rank takes wk = 1
receiver_rank takes_last wk = 4
receiver_rank takes_upgrade wk = 3
receiver_rank drops_port wk = 2
receiver_rank discards wk = 1
receiver_rank closed wk = 0
receiver_rank failed wk = 0

-- The sender is between two calls, or dropped, or its call has ended in the panic of the unwrap, the
-- next port being dropped.
abbrev pub rests : {A R : Type 0} → Sending A R → NextPort → Bool
rests idle np = true
rests gone np = true
rests unwrap_failed dropped = true
rests s np = false

-- The receiver is between two calls, or dropped, or waits on a token that is in the packet.
abbrev pub rests_or_waits : Receiving → Word → Bool
rests_or_waits resting w = true
rests_or_waits closed w = true
rests_or_waits (waits b n) w = in_state w n
rests_or_waits r w = false

receiver_rank_bound : (r : Receiving) (wk : ℕ → Bool) → receiver_rank r wk ≤ 9
receiver_rank_bound resting wk = ground arith
receiver_rank_bound r wk = ground arith

module _ {A R : Type 0} where
  sender_rank_bound : (s : Sending A R) → sender_rank s ≤ 7
  sender_rank_bound idle = ground arith
  sender_rank_bound s = ground arith

  sender_rank_falls :
      (s : Sending A R) (w : Word) (o acc rcv : Option A) (u : MyUpgrade R) (wk : ℕ → Bool) (nt : ℕ)
      (np : NextPort) (r : Receiving)
      → sender_rank (sender_goes s (channel w o u wk nt np s r acc rcv)).sender ≤ sender_rank s - 1
  sender_rank_falls idle empty none none none nothing_sent wk nt np r = ground arith
  sender_rank_falls s w o acc rcv u wk nt np r = ground arith

  receiver_rank_falls :
      (r : Receiving) (w : Word) (o acc rcv : Option A) (u : MyUpgrade R) (wk : ℕ → Bool) (nt : ℕ)
      (np : NextPort) (s : Sending A R)
      → wk nt ≡ false
      → receiver_rank
          (receiver_goes r (channel w o u wk nt np s r acc rcv)).receiver
          (receiver_goes r (channel w o u wk nt np s r acc rcv)).woken
        ≤ receiver_rank r wk - 1
  receiver_rank_falls (loads true) empty none none none nothing_sent wk nt np s h = ground arith
  receiver_rank_falls r w o acc rcv u wk nt np s h = ground arith

  Tokened-fresh : (s : Channel A R) → Tokened s → s.woken s.next_token ≡ false
  Tokened-fresh s h = ground (arith, h.old s.next_token)

  sender_runs-rank :
      (k : ℕ) (s : Channel A R)
      → sender_rank (run (replicate k sender_runs) s).sender ≤ sender_rank s.sender - k
  unfolding run step
  sender_runs-rank zero s = ground arith
  sender_runs-rank (suc k) s = ground (
    arith,
    sender_runs-rank k (step sender_runs s),
    sender_rank_falls s.sender s.state s.item s.accepted s.received s.upgrade s.woken s.next_token
        s.next_port s.receiver,
  )

  receiver_runs-rank :
      (k : ℕ) (s : Channel A R)
      → Sound s
      → receiver_rank
          (run (replicate k receiver_runs) s).receiver
          (run (replicate k receiver_runs) s).woken
        ≤ receiver_rank s.receiver s.woken - k
  unfolding run step
  receiver_runs-rank zero s h = ground arith
  receiver_runs-rank (suc k) s h = ground (
    arith,
    receiver_runs-rank k (step receiver_runs s) (step-Sound receiver_runs s h),
    receiver_rank_falls s.receiver s.state s.item s.accepted s.received s.upgrade s.woken
        s.next_token s.next_port s.sender (Tokened-fresh s h.tokens),
  )

  sender-receiver_goes :
      (r : Receiving) (w : Word) (o acc rcv : Option A) (u : MyUpgrade R) (wk : ℕ → Bool) (nt : ℕ)
      (np : NextPort) (s : Sending A R)
      → (receiver_goes r (channel w o u wk nt np s r acc rcv)).sender ≡ s
  sender-receiver_goes (loads true) empty none none none nothing_sent wk nt np s = ground arith
  sender-receiver_goes r w o acc rcv u wk nt np s = ground arith

  sender-receiver_runs :
      (k : ℕ) (s : Channel A R) → (run (replicate k receiver_runs) s).sender ≡ s.sender
  unfolding run step
  sender-receiver_runs zero s = refl
  sender-receiver_runs (suc k) s = cc (
    sender-receiver_runs k (step receiver_runs s),
    sender-receiver_goes s.receiver s.state s.item s.accepted s.received s.upgrade s.woken
        s.next_token s.next_port s.sender,
  )

  sound-rests :
      (s : Sending A R) (w : Word) (o acc rcv : Option A) (u : MyUpgrade R) (wk : ℕ → Bool) (nt : ℕ)
      (np : NextPort) (r : Receiving)
      → InOrder (channel w o u wk nt np s r acc rcv)
      → Handed (channel w o u wk nt np s r acc rcv)
      → sender_rank s ≡ 0
      → rests s np ≡ true
  sound-rests idle w o acc rcv u wk nt np r h port q = ground arith
  sound-rests s w o acc rcv u wk nt np r h port q = ground arith

  sound-rests_or_waits :
      (r : Receiving) (s : Sending A R) (w : Word) (o acc rcv : Option A) (u : MyUpgrade R)
      (wk : ℕ → Bool) (nt : ℕ) (np : NextPort)
      → InOrder (channel w o u wk nt np s r acc rcv)
      → heard r w wk nt s ≡ true
      → rests s np ≡ true
      → receiver_rank r wk ≡ 0
      → rests_or_waits r w ≡ true
  sound-rests_or_waits resting idle w o acc rcv u wk nt np h g p q = ground arith
  sound-rests_or_waits r s w o acc rcv u wk nt np h g p q = ground arith

  -- The scheduler gives the sender seven steps, and then the receiver nine.
  unfoldable pub finish : Channel A R → Channel A R
  unfolding run
  finish s = run (replicate 9 receiver_runs) (run (replicate 7 sender_runs) s)

  pub finish-Sound : (s : Channel A R) → Sound s → Sound (finish s)
  unfolding finish
  finish-Sound s h =
      run-Sound_from (replicate 9 receiver_runs) _ (run-Sound_from (replicate 7 sender_runs) s h)

  finish-ranks :
      (s : Channel A R)
      → Sound s
      → (sender_rank (finish s).sender ≡ 0)
        × (receiver_rank (finish s).receiver (finish s).woken ≡ 0)
  unfolding finish
  finish-ranks s h =
      let t = run (replicate 7 sender_runs) s in
      (
        omega (
          arith,
          ap sender_rank (sender-receiver_runs 9 t),
          sender_runs-rank 7 s,
          sender_rank_bound s.sender,
        ),
        omega (
          arith,
          receiver_runs-rank 9 t (run-Sound_from (replicate 7 sender_runs) s h),
          receiver_rank_bound t.receiver t.woken,
        ),
      )

  pub finish-rests :
      (s : Channel A R)
      → Sound s
      → (rests (finish s).sender (finish s).next_port ≡ true)
        × (rests_or_waits (finish s).receiver (finish s).state ≡ true)
  finish-rests s h =
      let t = finish s in
      let good = finish-Sound s h in
      let ranks = finish-ranks s h in
      let sender_done =
        sound-rests t.sender t.state t.item t.accepted t.received t.upgrade t.woken t.next_token
          t.next_port t.receiver good.order good.ports ranks.0 in
      (
        sender_done,
        sound-rests_or_waits t.receiver t.sender t.state t.item t.accepted t.received t.upgrade
            t.woken t.next_token t.next_port good.order good.tokens.heard sender_done ranks.1,
      )

  -- After every run of a oneshot channel, seven steps of the sender end its call, by a return, or
  -- by the panic of the unwrap in Sender::send where the new port is dropped; and nine steps of the
  -- receiver then end its own, unless it waits on a token that is still in the packet.
  pub run-returns :
      (es : List (Event A R))
      → (rests (finish (run es new)).sender (finish (run es new)).next_port ≡ true)
        × (rests_or_waits (finish (run es new)).receiver (finish (run es new)).state ≡ true)
  run-returns es = finish-rests (run es new) (run-Sound es)
