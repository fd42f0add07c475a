-- ===== src/Sync/Oneshot/Ports.antt =====
-- sync/mpsc/oneshot.rs: who has the port that an upgrade hands over.
use rust_libstd.Prelude.{ℕ, Bool, true, false, ◌&&◌, ◌≡◌, Option, none, arith}
use rust_libstd.Sync.Oneshot.{
  Word, empty, Sending, idle, unwrap_failed, Receiving, loads, drops_port, discards, closed,
  MyUpgrade, nothing_sent, NextPort, unseen, with_receiver, dropped, Channel,
}
use rust_libstd.Sync.Oneshot.Send.{sender_goes}
use rust_libstd.Sync.Oneshot.Receive.{receiver_goes}
use rust_libstd.Sync.Oneshot.Run.{Event, sender_runs, receiver_runs, step}
use rust_libstd.Sync.Oneshot.Order.{channel, InOrder}

-- The receiver is about to drop this port, or has.
abbrev pub departs : Receiving → Bool
departs drops_port = true
departs discards = true
departs closed = true
departs r = false

abbrev pub unwrapped : {A R : Type 0} → Sending A R → Bool
unwrapped unwrap_failed = false
unwrapped s = true

-- Where the receiver has the next port, or has dropped it, it departs from this one; the unwrap
-- fails only where it has dropped it.
abbrev pub handed : {A R : Type 0} → NextPort → Receiving → Sending A R → Bool
handed unseen r s = unwrapped s
handed with_receiver r s = departs r && unwrapped s
handed dropped r s = departs r

module _ {A R : Type 0} where
  abbrev pub Handed : Channel A R → Type 0
  Handed s = handed s.next_port s.receiver s.sender ≡ true

  receiver-Handed :
      (r : Receiving) (w : Word) (o acc rcv : Option A) (u : MyUpgrade R) (wk : ℕ → Bool) (nt : ℕ)
      (np : NextPort) (s : Sending A R)
      → InOrder (channel w o u wk nt np s r acc rcv)
      → Handed (channel w o u wk nt np s r acc rcv)
      → Handed (receiver_goes r (channel w o u wk nt np s r acc rcv))
  receiver-Handed (loads true) empty none none none nothing_sent wk nt unseen idle ord h =
      ground arith
  receiver-Handed r w o acc rcv u wk nt np s ord h = ground arith

  sender-Handed :
      (s : Sending A R) (w : Word) (o acc rcv : Option A) (u : MyUpgrade R) (wk : ℕ → Bool) (nt : ℕ)
      (np : NextPort) (r : Receiving)
      → InOrder (channel w o u wk nt np s r acc rcv)
      → Handed (channel w o u wk nt np s r acc rcv)
      → Handed (sender_goes s (channel w o u wk nt np s r acc rcv))
  sender-Handed idle empty none none none nothing_sent wk nt unseen (loads true) ord h =
      ground arith
  sender-Handed s w o acc rcv u wk nt np r ord h = ground arith

  pub step-Handed : (e : Event A R) (s : Channel A R) → InOrder s → Handed s → Handed (step e s)
  unfolding step
  step-Handed sender_runs s ord h =
      sender-Handed s.sender s.state s.item s.accepted s.received s.upgrade s.woken s.next_token
        s.next_port s.receiver ord h
  step-Handed receiver_runs s ord h =
      receiver-Handed s.receiver s.state s.item s.accepted s.received s.upgrade s.woken s.next_token
        s.next_port s.sender ord h
  step-Handed e s ord h = ground arith
