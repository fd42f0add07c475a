-- ===== src/Sync/Oneshot/Sound.antt =====
-- sync/mpsc/oneshot.rs: the invariant of the channel, after any run of the two threads.
use rust_libstd.Prelude.{ℕ, ◌≡◌, Bool, true, Option, none, some, List, [], ◌∷◌, refl, arith}
use rust_libstd.Sync.Oneshot.{
  Word, empty, Sending, idle, Receiving, loads, MyUpgrade, nothing_sent, NextPort, Channel, new,
}
use rust_libstd.Sync.Oneshot.Send.{sender_goes}
use rust_libstd.Sync.Oneshot.Receive.{receiver_goes}
use rust_libstd.Sync.Oneshot.Run.{Event, sender_runs, receiver_runs, step, run}
use rust_libstd.Sync.Oneshot.Order.{InOrder, channel, step-InOrder}
use rust_libstd.Sync.Oneshot.Ports.{Handed, step-Handed}
use rust_libstd.Sync.Oneshot.Tokens.{Tokened, step-Tokened, apart-Asleep}

-- The message that is received, or waits in the packet, is the accepted one.
abbrev pub Agrees : {A : Type 0} → Option A → Option A → Option A → Type 0
Agrees (some v) (some x) none = v ≡ x
Agrees (some v) none (some y) = v ≡ y
Agrees acc o rcv = Unit {0}

module _ {A R : Type 0} where
  pub record Sound (s : Channel A R) : Type 0 where
    pub order : InOrder s
    pub ports : Handed s
    pub tokens : Tokened s
    pub agree : Agrees s.accepted s.item s.received

  pub new-Sound : Sound new
  new-Sound = record {
    order = (refl, refl);
    ports = refl;
    tokens = record { old = λ n h. absurd (cc h); early = refl; apart = refl; heard = refl };
    agree = tt;
  }

  receiver-Agrees :
      (r : Receiving) (w : Word) (o acc rcv : Option A) (u : MyUpgrade R) (wk : ℕ → Bool) (nt : ℕ)
      (np : NextPort) (s : Sending A R)
      → InOrder (channel w o u wk nt np s r acc rcv)
      → Agrees acc o rcv
      → Agrees
          (receiver_goes r (channel w o u wk nt np s r acc rcv)).accepted
          (receiver_goes r (channel w o u wk nt np s r acc rcv)).item
          (receiver_goes r (channel w o u wk nt np s r acc rcv)).received
  receiver-Agrees (loads true) empty none none none u wk nt np idle ord h = ground arith
  receiver-Agrees r w o acc rcv u wk nt np s ord h = ground arith

  sender-Agrees :
      (s : Sending A R) (w : Word) (o acc rcv : Option A) (u : MyUpgrade R) (wk : ℕ → Bool) (nt : ℕ)
      (np : NextPort) (r : Receiving)
      → InOrder (channel w o u wk nt np s r acc rcv)
      → Agrees acc o rcv
      → Agrees
          (sender_goes s (channel w o u wk nt np s r acc rcv)).accepted
          (sender_goes s (channel w o u wk nt np s r acc rcv)).item
          (sender_goes s (channel w o u wk nt np s r acc rcv)).received
  sender-Agrees idle empty none none none nothing_sent wk nt np (loads true) ord h = ground arith
  sender-Agrees s w o acc rcv u wk nt np r ord h = ground arith

  step-Agrees :
      (e : Event A R) (s : Channel A R)
      → InOrder s
      → Agrees s.accepted s.item s.received
      → Agrees (step e s).accepted (step e s).item (step e s).received
  unfolding step
  step-Agrees sender_runs s ord h =
      sender-Agrees s.sender s.state s.item s.accepted s.received s.upgrade s.woken s.next_token
        s.next_port s.receiver ord h
  step-Agrees receiver_runs s ord h =
      receiver-Agrees s.receiver s.state s.item s.accepted s.received s.upgrade s.woken s.next_token
        s.next_port s.sender ord h
  step-Agrees e s ord h = ground arith

  pub step-Sound : (e : Event A R) (s : Channel A R) → Sound s → Sound (step e s)
  step-Sound e s h =
      let quiet = apart-Asleep s.state s.woken s.next_token s.sender h.tokens.apart in
      record {
        order = step-InOrder e s quiet h.order;
        ports = step-Handed e s h.order h.ports;
        tokens = step-Tokened e s h.order h.ports h.tokens;
        agree = step-Agrees e s h.order h.agree;
      }

  pub run-Sound_from : (es : List (Event A R)) (s : Channel A R) → Sound s → Sound (run es s)
  unfolding run
  run-Sound_from [] s h = h
  run-Sound_from (e ∷ es) s h = run-Sound_from es (step e s) (step-Sound e s h)

  pub run-Sound : (es : List (Event A R)) → Sound (run es new)
  run-Sound es = run-Sound_from es new new-Sound
