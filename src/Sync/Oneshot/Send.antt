-- ===== src/Sync/Oneshot/Send.antt =====
-- sync/mpsc/oneshot.rs: the steps of the sender, in `send`, `upgrade` and `drop_chan`.
use rust_libstd.Prelude.{ℕ, Bool, true, false, ◌==◌, if◌then◌else◌, Option, none, some}
use rust_libstd.Sync.Oneshot.{
  NextPort, unseen, with_receiver, dropped, sends_up, unwrap_failed, Word, empty, has_data,
  disconnected, token, Sending, idle, checks, writes, marks, swaps, signals, undoes, unmarks,
  retakes, upgrades, goes_up, swaps_up, restores, wakes, leaves, drops, signals_drop, gone,
  panicked, MyUpgrade, nothing_sent, send_used, go_up, Channel,
}

abbrev pub sent : {R : Type 0} → MyUpgrade R → Bool
sent nothing_sent = false
sent send_used = true
sent (go_up r) = true

-- `NothingSent` and `SendUsed`, as the local variable `prev`.
abbrev pub as_upgrade : {R : Type 0} → Bool → MyUpgrade R
as_upgrade false = nothing_sent
as_upgrade true = send_used

module _ {A R : Type 0} where
  -- `SignalToken::signal`.
  abbrev pub signal : ℕ → Channel A R → Channel A R
  signal n s = record s { woken = λ m. if m == n then true else s.woken m }

  -- The checks at the start of `send`.
  abbrev pub check_send : A → MyUpgrade R → Option A → Sending A R
  check_send t nothing_sent none = writes t
  check_send t nothing_sent (some x) = panicked
  check_send t send_used o = panicked
  check_send t (go_up r) o = panicked

  -- What `send` does with the state that its swap has found.
  abbrev pub send_found : Word → Channel A R → Channel A R
  send_found empty s = record s { state = has_data; sender = idle; accepted = s.item }
  send_found disconnected s = record s { state = has_data; sender = undoes }
  send_found has_data s = record s { state = has_data; sender = panicked }
  send_found (token n) s = record s { state = has_data; sender = signals n; accepted = s.item }

  abbrev pub retake : Option A → Channel A R → Channel A R
  retake none s = record s { sender = panicked }
  retake (some x) s = record s { item = none; sender = idle }

  -- `upgrade` up to the write of `GoUp`.
  abbrev pub check_upgrade : R → MyUpgrade R → Sending A R
  check_upgrade r nothing_sent = goes_up r false
  check_upgrade r send_used = goes_up r true
  check_upgrade r (go_up r') = panicked

  abbrev pub upgrade_found : Bool → Word → Sending A R
  upgrade_found prev empty = leaves
  upgrade_found prev has_data = leaves
  upgrade_found prev disconnected = restores prev
  upgrade_found prev (token n) = sends_up n

  -- `a.send(t).ok().unwrap()` of `Sender::send`: the stream packet gives the message back where its
  -- port was dropped. The unwinding drops the token and the stream.
  abbrev pub unwrap_sent : ℕ → NextPort → Sending A R
  unwrap_sent n unseen = wakes n
  unwrap_sent n with_receiver = wakes n
  unwrap_sent n dropped = unwrap_failed

  abbrev pub drop_chan_found : Word → Sending A R
  drop_chan_found empty = gone
  drop_chan_found has_data = gone
  drop_chan_found disconnected = gone
  drop_chan_found (token n) = signals_drop n

  abbrev pub sender_goes : Sending A R → Channel A R → Channel A R
  sender_goes idle s = s
  sender_goes (checks t) s = record s { sender = check_send t s.upgrade s.item }
  sender_goes (writes t) s = record s { item = some t; sender = marks }
  sender_goes marks s = record s { upgrade = send_used; sender = swaps }
  sender_goes swaps s = send_found s.state s
  sender_goes (signals n) s = record (signal n s) { sender = idle }
  sender_goes undoes s = record s { state = disconnected; sender = unmarks }
  sender_goes unmarks s = record s { upgrade = nothing_sent; sender = retakes }
  sender_goes retakes s = retake s.item s
  sender_goes (upgrades r) s = record s { sender = check_upgrade r s.upgrade }
  sender_goes (goes_up r prev) s = record s { upgrade = go_up r; sender = swaps_up prev }
  sender_goes (swaps_up prev) s = record s {
    state = disconnected;
    sender = upgrade_found prev s.state;
  }
  sender_goes (restores prev) s = record s { upgrade = as_upgrade prev; sender = leaves }
  sender_goes (sends_up n) s = record s { sender = unwrap_sent n s.next_port }
  sender_goes (wakes n) s = record (signal n s) { sender = leaves }
  sender_goes leaves s = record s { state = disconnected; sender = drop_chan_found s.state }
  sender_goes drops s = record s { state = disconnected; sender = drop_chan_found s.state }
  sender_goes (signals_drop n) s = record (signal n s) { sender = gone }
  sender_goes gone s = s
  sender_goes panicked s = s
  sender_goes unwrap_failed s = s
