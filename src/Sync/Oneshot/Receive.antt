-- ===== src/Sync/Oneshot/Receive.antt =====
-- sync/mpsc/oneshot.rs: the steps of the receiver, in `recv`, `try_recv`, `abort_selection` and
-- `drop_port`.
use rust_libstd.Prelude.{ℕ, ◌+◌, Bool, true, false, ◌==◌, if◌then◌else◌, Option, none, some}
use rust_libstd.Sync.Oneshot.{
  NextPort, with_receiver, Word, empty, has_data, disconnected, token, Receiving, resting, loads,
  blocks, waits, aborts, aborts_at, abort_checks, abort_upgrades, tries, swaps_back, takes,
  takes_last, takes_upgrade, drops_port, discards, closed, failed, MyUpgrade, nothing_sent,
  send_used, go_up, Channel,
}

abbrev pub load_found : Bool → Word → Receiving
load_found b empty = blocks b
load_found b has_data = tries b
load_found b disconnected = tries b
load_found b (token n) = tries b

-- `abort_selection`: the load, and then the swap that takes the token back.
abbrev pub abort_found : Word → Receiving
abort_found empty = failed
abort_found has_data = tries false
abort_found disconnected = abort_checks
abort_found (token n) = aborts_at n

abbrev pub abort_checked : {A : Type 0} → Option A → Receiving
abort_checked none = abort_upgrades
abort_checked (some x) = tries false

abbrev pub abort_upgraded : {R : Type 0} → MyUpgrade R → Receiving
abort_upgraded nothing_sent = tries false
abort_upgraded send_used = tries false
abort_upgraded (go_up r) = drops_port

-- The result of `try_recv` without a message. For `Upgraded` the caller swaps the new port in and
-- drops this one.
abbrev pub last_found : {R : Type 0} → MyUpgrade R → Receiving
last_found nothing_sent = resting
last_found send_used = resting
last_found (go_up r) = drops_port

-- The port that an upgrade hands over is now the receiver's.
abbrev pub next_found : {R : Type 0} → MyUpgrade R → NextPort → NextPort
next_found nothing_sent port = port
next_found send_used port = port
next_found (go_up r) port = with_receiver

-- `try_recv`; for a `recv` without a deadline, `Receiver::recv` takes `Empty` for unreachable.
abbrev pub try_found : Bool → Word → Receiving
try_found true empty = failed
try_found false empty = resting
try_found b has_data = swaps_back
try_found b disconnected = takes_last
try_found b (token n) = failed

abbrev pub swap_back : Word → Word
swap_back empty = empty
swap_back has_data = empty
swap_back disconnected = disconnected
swap_back (token n) = token n

abbrev pub drop_port_found : Word → Receiving
drop_port_found empty = closed
drop_port_found has_data = discards
drop_port_found disconnected = closed
drop_port_found (token n) = failed

module _ {A R : Type 0} where
  -- `compare_and_swap(EMPTY, ptr)` of `recv`, with a fresh token.
  abbrev pub block_found : Bool → Word → Channel A R → Channel A R
  block_found b empty s = record s {
    state = token s.next_token;
    receiver = waits b s.next_token;
    next_token = s.next_token + 1;
  }
  block_found b has_data s = record s { receiver = tries b; next_token = s.next_token + 1 }
  block_found b disconnected s = record s { receiver = tries b; next_token = s.next_token + 1 }
  block_found b (token n) s = record s { receiver = tries b; next_token = s.next_token + 1 }

  abbrev pub abort_swapped : ℕ → Word → Channel A R → Channel A R
  abort_swapped n empty s = record s { receiver = failed }
  abort_swapped n has_data s = record s { receiver = tries false }
  abort_swapped n disconnected s = record s { receiver = abort_checks }
  abort_swapped n (token m) s = record s {
    state = if m == n then empty else token m;
    receiver = tries false;
  }

  abbrev pub take_item : Receiving → Option A → Channel A R → Channel A R
  take_item otherwise none s = record s { receiver = otherwise }
  take_item otherwise (some x) s = record s { item = none; receiver = resting; received = some x }

  abbrev pub discard : Option A → Channel A R → Channel A R
  discard none s = record s { receiver = failed }
  discard (some x) s = record s { item = none; receiver = closed }

  abbrev pub receiver_goes : Receiving → Channel A R → Channel A R
  receiver_goes resting s = s
  receiver_goes (loads b) s = record s { receiver = load_found b s.state }
  receiver_goes (blocks b) s = block_found b s.state s
  receiver_goes (waits b n) s = if s.woken n then record s { receiver = tries b } else s
  receiver_goes (aborts n) s = record s { receiver = abort_found s.state }
  receiver_goes (aborts_at n) s = abort_swapped n s.state s
  receiver_goes abort_checks s = record s { receiver = abort_checked s.item }
  receiver_goes abort_upgrades s = record s {
    upgrade = send_used;
    next_port = next_found s.upgrade s.next_port;
    receiver = abort_upgraded s.upgrade;
  }
  receiver_goes (tries b) s = record s { receiver = try_found b s.state }
  receiver_goes swaps_back s = record s { state = swap_back s.state; receiver = takes }
  receiver_goes takes s = take_item failed s.item s
  receiver_goes takes_last s = take_item takes_upgrade s.item s
  receiver_goes takes_upgrade s = record s { upgrade = send_used; receiver = last_found s.upgrade }
  receiver_goes drops_port s = record s { state = disconnected; receiver = drop_port_found s.state }
  receiver_goes discards s = discard s.item s
  receiver_goes closed s = s
  receiver_goes failed s = s
