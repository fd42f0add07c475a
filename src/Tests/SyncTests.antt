-- ===== src/Tests/SyncTests.antt =====
-- sync/mpsc/oneshot.rs: runs of a channel under some schedules, and the theorems at them.
use rust_libstd.Prelude.{
  ◌⊎◌, ℕ, ◌≡◌, ◌≢◌, refl, true, false, none, some, List, [], ◌∷◌, ◌++◌, replicate,
}
use rust_libstd.Sync.Oneshot.{
  disconnected, idle, signals, gone, panicked, unwrap_failed, waits, closed, failed, dropped, new,
}
use rust_libstd.Sync.Oneshot.Run.{
  Event, sender_runs, receiver_runs, send_called, chan_dropped, recv_called, port_dropped,
  next_port_dropped, timed_out, step, run,
}
use rust_libstd.Sync.Oneshot.Patience.{times_out}
use rust_libstd.Sync.Oneshot.Safe.{races, run-safe, run-races}
use rust_libstd.Sync.Oneshot.Progress.{rests, rests_or_waits, finish, run-returns}
use rust_libstd.Sync.Oneshot.Delivery.{run-received}
use rust_libstd.Sync.Oneshot.Outcome.{Delivered, run-Delivered, run-closed}

abbrev Happens : Type 0
Happens = List (Event ℕ ℕ)

abbrev sends : Happens
sends = replicate 7 sender_runs

abbrev receives : Happens
receives = replicate 9 receiver_runs

-- A `recv` blocks, and the sender comes up to the signal.
abbrev blocked_recv : Happens
blocked_recv =
    recv_called true ∷ replicate 2 receiver_runs ++ send_called 7 0 ∷ replicate 4 sender_runs

-- A `recv` has blocked, a message was sent and received, and both ends are dropped.
abbrev whole_life : Happens
whole_life = blocked_recv ++ sends ++ receives ++ chan_dropped ∷ sends ++ port_dropped ∷ receives

-- The port is dropped between the write of the message and the swap.
abbrev refused_send : Happens
refused_send = send_called 7 0 ∷ replicate 2 sender_runs ++ port_dropped ∷ receives ++ sends

-- After a first message, a `recv_timeout` blocks; a second `send` has swapped the state, and before
-- it goes on the receiver times out, takes the new port and drops this one.
abbrev late_upgrade : Happens
late_upgrade =
    send_called 7 0 ∷ sends
    ++ recv_called false ∷ receives
    ++ recv_called false ∷ receives
    ++ send_called 8 1 ∷ replicate 3 sender_runs
    ++ timed_out ∷ receives
    ++ next_port_dropped ∷ sends

-- The same without the deadline: the second message goes through the upgrade.
abbrev upgrade_in_time : Happens
upgrade_in_time =
    send_called 7 0 ∷ sends
    ++ recv_called false ∷ receives
    ++ recv_called false ∷ receives
    ++ send_called 8 1 ∷ sends
    ++ receives

blocked_recv-state :
    ((run blocked_recv new).receiver ≡ waits true 0) × ((run blocked_recv new).sender ≡ signals 0)
unfolding run step
blocked_recv-state = (refl, refl)

whole_life-received : (run whole_life new).received ≡ some 7
unfolding run step
whole_life-received = refl

refused_send-state :
    ((run refused_send new).sender ≡ idle)
    × (((run refused_send new).item ≡ none) × ((run refused_send new).accepted ≡ none))
unfolding run step
refused_send-state = (refl, (refl, refl))

late_upgrade-state :
    ((run late_upgrade new).sender ≡ unwrap_failed) × ((run late_upgrade new).receiver ≡ closed)
unfolding run step
late_upgrade-state = (refl, refl)

upgrade_in_time-state :
    ((run upgrade_in_time new).sender ≡ gone) × ((run upgrade_in_time new).receiver ≡ closed)
unfolding run step
upgrade_in_time-state = (refl, refl)

run-safe_example :
    ((run late_upgrade new).sender ≢ panicked)
    × (((run late_upgrade new).receiver ≢ failed)
        × (((run late_upgrade new).sender ≢ unwrap_failed)
            ⊎ ((times_out late_upgrade ≡ true) × ((run late_upgrade new).next_port ≡ dropped))))
run-safe_example = run-safe late_upgrade

run-races_example : races (run refused_send new) ≡ false
run-races_example = run-races refused_send

run-returns_example :
    (rests (finish (run blocked_recv new)).sender (finish (run blocked_recv new)).next_port ≡ true)
    × (rests_or_waits (finish (run blocked_recv new)).receiver (finish (run blocked_recv new)).state
        ≡ true)
run-returns_example = run-returns blocked_recv

run-received_example : (finish (run [] (run blocked_recv new))).received ≡ some 7
unfolding run step
run-received_example = run-received blocked_recv [] 7 refl refl

run-Delivered_example :
    Delivered
      (run whole_life new).accepted
      (run whole_life new).item
      (run whole_life new).received
      (run whole_life new).receiver
run-Delivered_example = run-Delivered whole_life

run-closed_example : (run whole_life new).state ≡ disconnected
unfolding run step
run-closed_example = run-closed whole_life refl refl
