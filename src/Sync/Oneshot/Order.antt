-- ===== src/Sync/Oneshot/Order.antt =====
-- sync/mpsc/oneshot.rs: every step keeps the packet and the two threads in order.
use rust_libstd.Prelude.{ℕ, Bool, true, false, ◌≡◌, Option, none, arith}
use rust_libstd.Sync.Oneshot.{
  NextPort, Word, empty, has_data, disconnected, token, Sending, idle, Receiving, loads, MyUpgrade,
  nothing_sent, Channel,
}
use rust_libstd.Sync.Oneshot.Send.{sender_goes}
use rust_libstd.Sync.Oneshot.Receive.{receiver_goes}
use rust_libstd.Sync.Oneshot.Run.{
  Event, sender_runs, receiver_runs, send_called, chan_dropped, recv_called, try_recv_called,
  port_dropped, next_port_dropped, timed_out, step,
}
use rust_libstd.Sync.Oneshot.Table.{view, Letter, letter, slots, fits}

-- A token that the packet has is not signalled.
abbrev pub Asleep : Word → (ℕ → Bool) → Type 0
Asleep (token n) wk = wk n ≡ false
Asleep empty wk = Unit {0}
Asleep has_data wk = Unit {0}
Asleep disconnected wk = Unit {0}

module _ {A R : Type 0} where
  abbrev pub channel :
      Word
      → Option A
      → MyUpgrade R
      → (ℕ → Bool)
      → ℕ
      → NextPort
      → Sending A R
      → Receiving
      → Option A
      → Option A
      → Channel A R
  channel w o u wk nt np s r acc rcv = record {
    state = w;
    item = o;
    upgrade = u;
    woken = wk;
    next_token = nt;
    next_port = np;
    sender = s;
    receiver = r;
    accepted = acc;
    received = rcv;
  }

  abbrev pub now : Channel A R → Letter
  now s = letter s.accepted s.item s.received

  abbrev pub InOrder : Channel A R → Type 0
  InOrder s =
      (fits s.sender s.state (view s.receiver) (now s) ≡ true)
      × (slots s.sender s.upgrade (now s) ≡ true)

  receiver-InOrder :
      (r : Receiving) (w : Word) (o acc rcv : Option A) (u : MyUpgrade R) (wk : ℕ → Bool) (nt : ℕ)
      (np : NextPort) (s : Sending A R)
      → Asleep w wk
      → InOrder (channel w o u wk nt np s r acc rcv)
      → InOrder (receiver_goes r (channel w o u wk nt np s r acc rcv))
  receiver-InOrder (loads true) empty none none none u wk nt np idle a h =
      (ground arith, ground arith)
  receiver-InOrder r w o acc rcv u wk nt np s a h = (ground arith, ground arith)

  sender-InOrder :
      (s : Sending A R) (w : Word) (o acc rcv : Option A) (u : MyUpgrade R) (wk : ℕ → Bool) (nt : ℕ)
      (np : NextPort) (r : Receiving)
      → InOrder (channel w o u wk nt np s r acc rcv)
      → InOrder (sender_goes s (channel w o u wk nt np s r acc rcv))
  sender-InOrder idle empty none none none nothing_sent wk nt np r h = (ground arith, ground arith)
  sender-InOrder s w o acc rcv u wk nt np r h = (ground arith, ground arith)

  pub step-InOrder :
      (e : Event A R) (s : Channel A R) → Asleep s.state s.woken → InOrder s → InOrder (step e s)
  unfolding step
  step-InOrder sender_runs s a h =
      sender-InOrder s.sender s.state s.item s.accepted s.received s.upgrade s.woken s.next_token
        s.next_port s.receiver h
  step-InOrder receiver_runs s a h =
      receiver-InOrder s.receiver s.state s.item s.accepted s.received s.upgrade s.woken
        s.next_token s.next_port s.sender a h
  step-InOrder (send_called t r) s a h = (ground arith, ground arith)
  step-InOrder chan_dropped s a h = (ground arith, ground arith)
  step-InOrder (recv_called b) s a h = (ground arith, ground arith)
  step-InOrder try_recv_called s a h = (ground arith, ground arith)
  step-InOrder port_dropped s a h = (ground arith, ground arith)
  step-InOrder next_port_dropped s a h = (ground arith, ground arith)
  step-InOrder timed_out s a h = (ground arith, ground arith)
