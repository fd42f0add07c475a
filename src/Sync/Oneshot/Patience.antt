-- ===== src/Sync/Oneshot/Patience.antt =====
-- sync/mpsc/oneshot.rs: runs in which no deadline passes.
use rust_libstd.Prelude.{
  ℕ, Bool, true, false, ◌&&◌, ◌==◌, if◌then◌else◌, ◌≡◌, ◌≢◌, ◌⊎◌, inl, inr, refl, Option, none,
  List, [], ◌∷◌, arith,
}
use rust_libstd.Sync.Oneshot.{
  Word, empty, Sending, idle, sends_up, unwrap_failed, Receiving, loads, waits, aborts, aborts_at,
  abort_checks, abort_upgrades, MyUpgrade, nothing_sent, NextPort, unseen, with_receiver, dropped,
  Channel, new,
}
use rust_libstd.Sync.Oneshot.Send.{sender_goes}
use rust_libstd.Sync.Oneshot.Receive.{receiver_goes}
use rust_libstd.Sync.Oneshot.Run.{Event, sender_runs, receiver_runs, timed_out, step, run}
use rust_libstd.Sync.Oneshot.Order.{channel, Asleep, InOrder}
use rust_libstd.Sync.Oneshot.Ports.{handed, Handed}
use rust_libstd.Sync.Oneshot.Tokens.{apart-Asleep}
use rust_libstd.Sync.Oneshot.Sound.{Sound, step-Sound, new-Sound}

-- Some deadline passes in the run.
abbrev pub times_out : {A R : Type 0} → List (Event A R) → Bool
times_out [] = false
times_out (timed_out ∷ es) = true
times_out (e ∷ es) = times_out es

abbrev pub aborting : Receiving → Bool
aborting (aborts n) = true
aborting (aborts_at n) = true
aborting abort_checks = true
aborting abort_upgrades = true
aborting r = false

-- The receiver waits on the token `n` and is not woken.
abbrev pub sleeps : Receiving → ℕ → (ℕ → Bool) → Bool
sleeps (waits b m) n wk = m == n && (if wk m then false else true)
sleeps r n wk = false

-- Without a deadline that passes, the receiver is asleep as the sender comes to the unwrap.
abbrev pub patient : {A R : Type 0} → Sending A R → Receiving → (ℕ → Bool) → Bool
patient (sends_up n) r wk = sleeps r n wk
patient unwrap_failed r wk = false
patient s r wk = if aborting r then false else true

module _ {A R : Type 0} where
  abbrev pub Patient : Channel A R → Type 0
  Patient s = patient s.sender s.receiver s.woken ≡ true

  receiver-Patient :
      (r : Receiving) (w : Word) (o acc rcv : Option A) (u : MyUpgrade R) (wk : ℕ → Bool) (nt : ℕ)
      (np : NextPort) (s : Sending A R)
      → Patient (channel w o u wk nt np s r acc rcv)
      → Patient (receiver_goes r (channel w o u wk nt np s r acc rcv))
  receiver-Patient (loads true) empty none none none nothing_sent wk nt unseen idle h = ground arith
  receiver-Patient r w o acc rcv u wk nt np s h = ground arith

  sender-Patient :
      (s : Sending A R) (w : Word) (o acc rcv : Option A) (u : MyUpgrade R) (wk : ℕ → Bool) (nt : ℕ)
      (np : NextPort) (r : Receiving)
      → InOrder (channel w o u wk nt np s r acc rcv)
      → Handed (channel w o u wk nt np s r acc rcv)
      → Asleep w wk
      → Patient (channel w o u wk nt np s r acc rcv)
      → Patient (sender_goes s (channel w o u wk nt np s r acc rcv))
  sender-Patient idle empty none none none nothing_sent wk nt unseen (loads true) ord port quiet h =
      ground arith
  sender-Patient s w o acc rcv u wk nt np r ord port quiet h = ground arith

  step-Patient :
      (e : Event A R) (s : Channel A R) → e ≢ timed_out → Sound s → Patient s → Patient (step e s)
  unfolding step
  step-Patient sender_runs s ne good h =
      sender-Patient s.sender s.state s.item s.accepted s.received s.upgrade s.woken s.next_token
        s.next_port s.receiver good.order good.ports
        (apart-Asleep s.state s.woken s.next_token s.sender good.tokens.apart) h
  step-Patient receiver_runs s ne good h =
      receiver-Patient s.receiver s.state s.item s.accepted s.received s.upgrade s.woken
        s.next_token s.next_port s.sender h
  step-Patient timed_out s ne good h = absurd (ne refl)
  step-Patient e s ne good h = ground arith

  times_out_first :
      (e : Event A R) (es : List (Event A R))
      → times_out (e ∷ es) ≡ false
      → (e ≢ timed_out) × (times_out es ≡ false)
  times_out_first timed_out es h = cc
  times_out_first e es h = ((λ k. cc), h)

  run-Patient_from :
      (es : List (Event A R)) (s : Channel A R)
      → times_out es ≡ false
      → Sound s
      → Patient s
      → Patient (run es s)
  unfolding run
  run-Patient_from [] s none_passes good h = h
  run-Patient_from (e ∷ es) s none_passes good h =
      let (ne, later) = times_out_first e es none_passes in
      run-Patient_from es (step e s) later (step-Sound e s good) (step-Patient e s ne good h)

  pub run-Patient : (es : List (Event A R)) → times_out es ≡ false → Patient (run es new)
  run-Patient es none_passes = run-Patient_from es new none_passes new-Sound refl

  pub patient-unwrap :
      (s : Sending A R) (r : Receiving) (wk : ℕ → Bool) → patient s r wk ≡ true → s ≢ unwrap_failed
  patient-unwrap idle r wk h = ground arith
  patient-unwrap s r wk h = ground arith

  pub unwrap-dropped :
      (np : NextPort) (r : Receiving) (s : Sending A R)
      → handed np r s ≡ true
      → (s ≢ unwrap_failed) ⊎ (np ≡ dropped)
  unwrap-dropped dropped r s h = inr refl
  unwrap-dropped unseen r s h = inl (λ e. ground (arith, e))
  unwrap-dropped with_receiver r s h = inl (λ e. ground (arith, e))
