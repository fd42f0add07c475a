-- ===== src/Sync/Oneshot/Run.antt =====
-- sync/mpsc/oneshot.rs: the calls of the two threads, and runs of their steps in any order.
use rust_libstd.Prelude.{Bool, false, if◌then◌else◌, List, [], ◌∷◌}
use rust_libstd.Sync.Oneshot.{
  NextPort, with_receiver, dropped, Sending, idle, checks, upgrades, drops, Receiving, resting,
  loads, waits, aborts, tries, drops_port, Channel,
}
use rust_libstd.Sync.Oneshot.Send.{sent, sender_goes}
use rust_libstd.Sync.Oneshot.Receive.{receiver_goes}

module _ {A R : Type 0} where
  -- `Sender::send` and the drop of a `Sender`, of a thread between two calls.
  abbrev pub call_send : A → R → Sending A R → Channel A R → Channel A R
  call_send t r idle s = record s { sender = if sent s.upgrade then upgrades r else checks t }
  call_send t r other s = s

  abbrev pub call_drop_chan : Sending A R → Channel A R → Channel A R
  call_drop_chan idle s = record s { sender = drops }
  call_drop_chan other s = s

  -- A call of the receiver, which then stands at `at`.
  abbrev pub call_receiver : Receiving → Receiving → Channel A R → Channel A R
  call_receiver at resting s = record s { receiver = at }
  call_receiver at other s = s

  -- The deadline passes.
  abbrev pub time_out : Receiving → Channel A R → Channel A R
  time_out (waits false n) s = if s.woken n then s else record s { receiver = aborts n }
  time_out other s = s

  -- The receiver drops the port that it has taken in place of this one: the flag of the stream
  -- packet is set.
  abbrev pub drop_next : NextPort → Channel A R → Channel A R
  drop_next with_receiver s = record s { next_port = dropped }
  drop_next port s = s

-- What happens next: the scheduler lets a thread go on, or a thread calls.
pub data Event (A R : Type 0) : Type 0 where
  sender_runs receiver_runs : Event A R
  send_called : A → R → Event A R
  chan_dropped : Event A R
  recv_called : Bool → Event A R
  try_recv_called port_dropped next_port_dropped timed_out : Event A R

module _ {A R : Type 0} where
  unfoldable pub step : Event A R → Channel A R → Channel A R
  step sender_runs s = sender_goes s.sender s
  step receiver_runs s = receiver_goes s.receiver s
  step (send_called t r) s = call_send t r s.sender s
  step chan_dropped s = call_drop_chan s.sender s
  step (recv_called b) s = call_receiver (loads b) s.receiver s
  step try_recv_called s = call_receiver (tries false) s.receiver s
  step port_dropped s = call_receiver drops_port s.receiver s
  step next_port_dropped s = drop_next s.next_port s
  step timed_out s = time_out s.receiver s

  unfoldable pub run : List (Event A R) → Channel A R → Channel A R
  unfolding step
  run [] s = s
  run (e ∷ es) s = run es (step e s)
