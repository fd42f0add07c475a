-- ===== src/Sync/Oneshot/Safe.antt =====
-- sync/mpsc/oneshot.rs: no run of the two threads panics or races.
use rust_libstd.Prelude.{
  ◌⊎◌, inl, inr, Bool-cases, ℕ, ◌≡◌, ◌≢◌, Bool, true, false, ◌&&◌, ◌||◌, Option, none, List, arith,
}
use rust_libstd.Sync.Oneshot.{
  Word, empty, Sending, idle, checks, writes, marks, unmarks, retakes, upgrades, goes_up, restores,
  panicked, unwrap_failed, Receiving, loads, abort_checks, abort_upgrades, takes, takes_last,
  takes_upgrade, discards, failed, MyUpgrade, nothing_sent, NextPort, dropped, Channel, new,
}
use rust_libstd.Sync.Oneshot.Run.{Event, run}
use rust_libstd.Sync.Oneshot.Order.{InOrder, channel}
use rust_libstd.Sync.Oneshot.Patience.{times_out, run-Patient, patient-unwrap, unwrap-dropped}
use rust_libstd.Sync.Oneshot.Sound.{run-Sound}

-- The next access of a thread is to `data`, or to `upgrade`, and is not atomic.
abbrev pub sender_at_item : {A R : Type 0} → Sending A R → Bool
sender_at_item (checks t) = true
sender_at_item (writes t) = true
sender_at_item retakes = true
sender_at_item s = false

abbrev pub sender_at_upgrade : {A R : Type 0} → Sending A R → Bool
sender_at_upgrade idle = true
sender_at_upgrade (checks t) = true
sender_at_upgrade marks = true
sender_at_upgrade unmarks = true
sender_at_upgrade (upgrades r) = true
sender_at_upgrade (goes_up r b) = true
sender_at_upgrade (restores b) = true
sender_at_upgrade s = false

abbrev pub receiver_at_item : Receiving → Bool
receiver_at_item abort_checks = true
receiver_at_item takes = true
receiver_at_item takes_last = true
receiver_at_item discards = true
receiver_at_item r = false

abbrev pub receiver_at_upgrade : Receiving → Bool
receiver_at_upgrade abort_upgrades = true
receiver_at_upgrade takes_upgrade = true
receiver_at_upgrade r = false

module _ {A R : Type 0} where
  abbrev pub races : Channel A R → Bool
  races s =
      sender_at_item s.sender && receiver_at_item s.receiver
      || sender_at_upgrade s.sender && receiver_at_upgrade s.receiver

  ordered-safe :
      (s : Sending A R) (w : Word) (o acc rcv : Option A) (u : MyUpgrade R) (wk : ℕ → Bool) (nt : ℕ)
      (np : NextPort) (r : Receiving)
      → InOrder (channel w o u wk nt np s r acc rcv)
      → (s ≢ panicked) × (r ≢ failed)
  ordered-safe idle empty none none none nothing_sent wk nt np (loads true) h =
      (ground arith, ground arith)
  ordered-safe s w o acc rcv u wk nt np r h = (ground arith, ground arith)

  ordered-races :
      (s : Sending A R) (w : Word) (o acc rcv : Option A) (u : MyUpgrade R) (wk : ℕ → Bool) (nt : ℕ)
      (np : NextPort) (r : Receiving)
      → InOrder (channel w o u wk nt np s r acc rcv)
      → races (channel w o u wk nt np s r acc rcv) ≡ false
  ordered-races idle empty none none none nothing_sent wk nt np (loads true) h = ground arith
  ordered-races s w o acc rcv u wk nt np r h = ground arith

  -- The unwrap of `Sender::send` fails only where a deadline has passed, and the port is dropped.
  run-unwrap :
      (es : List (Event A R))
      → ((run es new).sender ≢ unwrap_failed)
        ⊎ ((times_out es ≡ true) × ((run es new).next_port ≡ dropped))
  run-unwrap es =
      let s = run es new in
      elim (Bool-cases (times_out es)) [
        | inl passes ↦ elim (unwrap-dropped s.next_port s.receiver s.sender (run-Sound es).ports) [
          | inl fine ↦ inl fine
          | inr gone_already ↦ inr (passes, gone_already)
        ]
        | inr none_passes ↦
            inl (patient-unwrap s.sender s.receiver s.woken (run-Patient es none_passes))
      ]

  -- In every run of the two threads of a oneshot channel, step by step in any order and with any
  -- calls, no assertion, unwrap or unreachable of the packet, nor that of Receiver::recv on Empty,
  -- fails; and the unwrap in Sender::send behind an upgrade that wakes the receiver fails only
  -- where a deadline has passed in the run and the receiver has dropped the new port.
  pub run-safe :
      (es : List (Event A R))
      → ((run es new).sender ≢ panicked)
        × (((run es new).receiver ≢ failed)
            × (((run es new).sender ≢ unwrap_failed)
                ⊎ ((times_out es ≡ true) × ((run es new).next_port ≡ dropped))))
  run-safe es =
      let s = run es new in
      let (sends, receives) =
        ordered-safe s.sender s.state s.item s.accepted s.received s.upgrade s.woken s.next_token
          s.next_port s.receiver (run-Sound es).order in
      (sends, (receives, run-unwrap es))

  -- In no run of a oneshot channel do both threads stand before an access to the slot of the
  -- message, or both before an access to the slot of the upgrade, so that these unsynchronised
  -- accesses never race.
  pub run-races : (es : List (Event A R)) → races (run es new) ≡ false
  run-races es =
      let s = run es new in
      ordered-races s.sender s.state s.item s.accepted s.received s.upgrade s.woken s.next_token
        s.next_port s.receiver (run-Sound es).order
