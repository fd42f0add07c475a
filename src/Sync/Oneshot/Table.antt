-- ===== src/Sync/Oneshot/Table.antt =====
-- sync/mpsc/oneshot.rs: which states of the packet go with which places of the two threads.
use rust_libstd.Prelude.{ℕ, Bool, true, false, ◌==◌, ◌&&◌, Option, none, some}
use rust_libstd.Sync.Oneshot.{
  sends_up, unwrap_failed, Word, empty, has_data, disconnected, token, Sending, idle, checks,
  writes, marks, swaps, signals, undoes, unmarks, retakes, upgrades, goes_up, swaps_up, restores,
  wakes, leaves, drops, signals_drop, gone, panicked, Receiving, resting, loads, blocks, waits,
  aborts, aborts_at, abort_checks, abort_upgrades, tries, swaps_back, takes, takes_last,
  takes_upgrade, drops_port, discards, closed, failed, MyUpgrade, nothing_sent, send_used, go_up,
}

-- The receiver as far as the packet depends on it: `eager` has seen that the state is not `EMPTY`.
pub data View : Type 0 where
  polling eager got taking ending discarding shut broken : View
  blocked : ℕ → View

abbrev pub view : Receiving → View
view resting = polling
view (loads b) = polling
view (blocks b) = polling
view (waits b n) = blocked n
view (aborts n) = blocked n
view (aborts_at n) = blocked n
view abort_checks = ending
view abort_upgrades = ending
view (tries true) = eager
view (tries false) = polling
view swaps_back = got
view takes = taking
view takes_last = ending
view takes_upgrade = ending
view drops_port = polling
view discards = discarding
view closed = shut
view failed = broken

-- Where the message is: nowhere, in the packet before `send` has given it over, in the packet,
-- received, or dropped with the port.
pub data Letter : Type 0 where
  unsent held full spent lost odd : Letter

-- Of the accepted message, the packet's and the received one.
abbrev pub letter {ℓ} : {A : Type ℓ} → Option A → Option A → Option A → Letter
letter none none none = unsent
letter none (some x) none = held
letter (some v) (some x) none = full
letter (some v) none (some y) = spent
letter (some v) none none = lost
letter v x y = odd

-- While the sender holds the channel open.
abbrev pub opens : Word → View → Letter → Bool
opens empty polling unsent = true
opens empty polling held = true
opens empty polling spent = true
opens empty taking full = true
opens (token n) (blocked m) unsent = n == m
opens (token n) (blocked m) held = n == m
opens (token n) (blocked m) spent = n == m
opens has_data polling full = true
opens has_data eager full = true
opens has_data (blocked m) full = true
opens has_data got full = true
opens disconnected discarding full = true
opens disconnected shut unsent = true
opens disconnected shut held = true
opens disconnected shut spent = true
opens disconnected shut lost = true
opens w v l = false

-- Once the sender has disconnected it.
abbrev pub closes : Word → View → Letter → Bool
closes disconnected polling unsent = true
closes disconnected polling full = true
closes disconnected polling spent = true
closes disconnected eager unsent = true
closes disconnected eager full = true
closes disconnected eager spent = true
closes disconnected (blocked n) unsent = true
closes disconnected (blocked n) full = true
closes disconnected (blocked n) spent = true
closes disconnected ending unsent = true
closes disconnected ending full = true
closes disconnected ending spent = true
closes disconnected got full = true
closes disconnected taking full = true
closes disconnected discarding full = true
closes disconnected shut unsent = true
closes disconnected shut full = true
closes disconnected shut spent = true
closes disconnected shut lost = true
closes w v l = false

abbrev pub departed : View → Bool
departed discarding = true
departed shut = true
departed v = false

-- While `send` takes the message back.
abbrev pub undone : Word → View → Letter → Bool
undone disconnected shut held = true
undone w v l = false

abbrev pub used : Letter → Bool
used full = true
used spent = true
used lost = true
used l = false

abbrev pub fresh : Letter → Bool
fresh unsent = true
fresh l = false

abbrev pub holds : Letter → Bool
holds held = true
holds l = false

-- The places of the sender at which `upgrade` is not yet written.
abbrev pub idles : {R : Type 0} → MyUpgrade R → Letter → Bool
idles nothing_sent l = fresh l
idles send_used l = used l
idles (go_up r) l = false

abbrev pub marked : {R : Type 0} → Bool → MyUpgrade R → Bool
marked false nothing_sent = true
marked true send_used = true
marked b u = false

abbrev pub gone_up : {R : Type 0} → MyUpgrade R → Bool
gone_up (go_up r) = true
gone_up u = false

-- What each place of the sender asks of the slots, and of the rest.
abbrev pub slots : {A R : Type 0} → Sending A R → MyUpgrade R → Letter → Bool
slots idle u l = idles u l
slots (checks t) u l = marked false u && fresh l
slots (writes t) u l = marked false u && fresh l
slots marks u l = marked false u && holds l
slots swaps u l = marked true u && holds l
slots (signals n) u l = marked true u && used l
slots undoes u l = marked true u && holds l
slots unmarks u l = marked true u && holds l
slots retakes u l = marked false u && holds l
slots (upgrades r) u l = marked true u && used l
slots (goes_up r true) u l = marked true u && used l
slots (goes_up r false) u l = false
slots (swaps_up true) u l = gone_up u && used l
slots (swaps_up false) u l = false
slots (restores b) u l = true
slots (sends_up n) u l = true
slots (wakes n) u l = true
slots leaves u l = true
slots drops u l = idles u l
slots (signals_drop n) u l = true
slots gone u l = true
slots unwrap_failed u l = true
slots panicked u l = false

abbrev pub fits : {A R : Type 0} → Sending A R → Word → View → Letter → Bool
fits undoes has_data v l = undone disconnected v l
fits undoes w v l = false
fits unmarks w v l = undone w v l
fits retakes w v l = undone w v l
fits (restores b) w v l = departed v && closes w v l
fits (sends_up n) w v l = closes w v l
fits (wakes n) w v l = closes w v l
fits leaves w v l = closes w v l
fits (signals_drop n) w v l = closes w v l
fits gone w v l = closes w v l
fits unwrap_failed w v l = closes w v l
fits idle w v l = opens w v l
fits (checks t) w v l = opens w v l
fits (writes t) w v l = opens w v l
fits marks w v l = opens w v l
fits swaps w v l = opens w v l
fits (signals n) w v l = opens w v l
fits (upgrades r) w v l = opens w v l
fits (goes_up r b) w v l = opens w v l
fits (swaps_up b) w v l = opens w v l
fits drops w v l = opens w v l
fits panicked w v l = false
