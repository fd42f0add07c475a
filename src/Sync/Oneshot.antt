-- ===== src/Sync/Oneshot.antt =====
-- sync/mpsc/oneshot.rs: the packet of a oneshot channel, with the two threads that use it. A step is
-- one access to the packet, atomic or not, and each thread stands before its next one.
pub mod Send
pub mod Receive
pub mod Run
pub mod Table
pub mod Order
pub mod Ports
pub mod Tokens
pub mod Sound
pub mod Patience
pub mod Safe
pub mod Progress
pub mod Delivery
pub mod Outcome
use rust_libstd.Prelude.{
  ℕ, ◌+◌, Bool, true, false, ◌==◌, if◌then◌else◌, Option, none, some, List, [], ◌∷◌,
}

-- What the word `state` says; a `token` is the pointer to a `SignalToken`.
pub data Word : Type 0 where
  empty has_data disconnected : Word
  token : ℕ → Word

-- The sender's thread. `idle` is between two calls; a `Sender` that has upgraded is dropped.
-- `panicked` is a panic in the packet, and `unwrap_failed` that of the `unwrap` in `Sender::send`.
pub data Sending (A R : Type 0) : Type 0 where
  idle : Sending A R
  checks writes : A → Sending A R
  marks swaps : Sending A R
  signals : ℕ → Sending A R
  undoes unmarks retakes : Sending A R
  upgrades : R → Sending A R
  goes_up : R → Bool → Sending A R
  swaps_up : Bool → Sending A R
  restores : Bool → Sending A R
  sends_up wakes : ℕ → Sending A R
  leaves drops : Sending A R
  signals_drop : ℕ → Sending A R
  gone panicked unwrap_failed : Sending A R

-- The receiver's thread; the Boolean says that a `recv` has no deadline.
pub data Receiving : Type 0 where
  resting : Receiving
  loads blocks : Bool → Receiving
  waits : Bool → ℕ → Receiving
  aborts : ℕ → Receiving
  aborts_at : ℕ → Receiving
  abort_checks abort_upgrades : Receiving
  tries : Bool → Receiving
  swaps_back takes takes_last takes_upgrade : Receiving
  drops_port discards closed failed : Receiving

-- The port of the stream packet that an upgrade hands over: not yet seen by the receiver, its port
-- now, or dropped, as the flag `port_dropped` of that packet says.
pub data NextPort : Type 0 where
  unseen with_receiver dropped : NextPort

pub data MyUpgrade (R : Type 0) : Type 0 where
  nothing_sent send_used : MyUpgrade R
  go_up : R → MyUpgrade R

-- The packet, the tokens of blocked receivers by number, the threads, and what went through: the
-- message that `send` accepted and the one that was received.
pub record Channel (A R : Type 0) : Type 0 where
  pub state : Word
  pub item : Option A
  pub upgrade : MyUpgrade R
  pub woken : ℕ → Bool
  pub next_token : ℕ
  pub next_port : NextPort
  pub sender : Sending A R
  pub receiver : Receiving
  pub accepted : Option A
  pub received : Option A

module _ {A R : Type 0} where
  -- `Packet::new`.
  abbrev pub new : Channel A R
  new = record {
    state = empty;
    item = none;
    upgrade = nothing_sent;
    woken = λ n. false;
    next_token = 0;
    next_port = unseen;
    sender = idle;
    receiver = resting;
    accepted = none;
    received = none;
  }
