-- ===== src/Sync/Oneshot/Outcome.antt =====
-- sync/mpsc/oneshot.rs: where an accepted message is, and the packet at its end.
use rust_libstd.Prelude.{ℕ, ◌≡◌, ◌⊎◌, Bool, true, Option, none, some, List, arith}
use rust_libstd.Sync.Oneshot.{
  Word, empty, disconnected, Sending, idle, gone, Receiving, loads, closed, MyUpgrade, nothing_sent,
  NextPort, new,
}
use rust_libstd.Sync.Oneshot.Run.{Event, run}
use rust_libstd.Sync.Oneshot.Order.{InOrder, channel}
use rust_libstd.Sync.Oneshot.Sound.{Agrees, run-Sound}

-- Of the accepted message, the packet's, the received one and the receiver: nothing is received
-- but what was accepted, and an accepted message is in one place, or the port was dropped.
abbrev pub Delivered : {A : Type 0} → Option A → Option A → Option A → Receiving → Type 0
Delivered none o rcv r = rcv ≡ none
Delivered (some v) o rcv r =
    ((rcv ≡ some v) × (o ≡ none))
    ⊎ (((rcv ≡ none) × (o ≡ some v)) ⊎ ((rcv ≡ none) × ((o ≡ none) × (r ≡ closed))))

module _ {A R : Type 0} where
  ordered-Delivered :
      (s : Sending A R) (w : Word) (o acc rcv : Option A) (u : MyUpgrade R) (wk : ℕ → Bool) (nt : ℕ)
      (np : NextPort) (r : Receiving)
      → InOrder (channel w o u wk nt np s r acc rcv)
      → Agrees acc o rcv
      → Delivered acc o rcv r
  ordered-Delivered idle empty none none none nothing_sent wk nt np (loads true) ord same =
      ground arith
  ordered-Delivered s w o acc rcv u wk nt np r ord same = ground arith

  -- In every run of a oneshot channel: nothing is received but the accepted message, and an
  -- accepted message is received and no more in the packet, or is in the packet and not received,
  -- or was dropped with the port, which is then closed.
  pub run-Delivered :
      (es : List (Event A R))
      → Delivered
          (run es new).accepted
          (run es new).item
          (run es new).received
          (run es new).receiver
  run-Delivered es =
      let s = run es new in
      let good = run-Sound es in
      ordered-Delivered s.sender s.state s.item s.accepted s.received s.upgrade s.woken s.next_token
        s.next_port s.receiver good.order good.agree

  ordered-closed :
      (w : Word) (o acc rcv : Option A) (u : MyUpgrade R) (wk : ℕ → Bool) (nt : ℕ) (np : NextPort)
      (s : Sending A R) (r : Receiving)
      → InOrder (channel w o u wk nt np s r acc rcv)
      → s ≡ gone
      → r ≡ closed
      → w ≡ disconnected
  ordered-closed empty none none none nothing_sent wk nt np idle (loads true) h p q = ground arith
  ordered-closed w o acc rcv u wk nt np s r h p q = ground arith

  -- In every run of a oneshot channel in which the sender and the port are both dropped, the state
  -- is DISCONNECTED, as the Drop of the packet asserts.
  pub run-closed :
      (es : List (Event A R))
      → (run es new).sender ≡ gone
      → (run es new).receiver ≡ closed
      → (run es new).state ≡ disconnected
  run-closed es p q =
      let s = run es new in
      ordered-closed s.state s.item s.accepted s.received s.upgrade s.woken s.next_token s.next_port
        s.sender s.receiver (run-Sound es).order p q
