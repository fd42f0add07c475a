-- ===== src/Sync/Oneshot/Tokens.antt =====
-- sync/mpsc/oneshot.rs: no wake-up is lost.
use rust_libstd.Prelude.{
  ℕ, ◌<◌, ◌≡◌, Bool, true, false, ◌==◌, ◌||◌, ◌&&◌, ltb, if◌then◌else◌, Option, none, arith,
}
use rust_libstd.Sync.Oneshot.{
  Word, empty, has_data, disconnected, token, Sending, idle, signals, sends_up, wakes, signals_drop,
  Receiving, loads, waits, MyUpgrade, nothing_sent, NextPort, Channel,
}
use rust_libstd.Sync.Oneshot.Send.{sender_goes}
use rust_libstd.Sync.Oneshot.Receive.{receiver_goes}
use rust_libstd.Sync.Oneshot.Run.{Event, sender_runs, receiver_runs, step}
use rust_libstd.Sync.Oneshot.Ports.{Handed}
use rust_libstd.Sync.Oneshot.Order.{Asleep, channel, InOrder}

-- The token that the sender is about to signal, and whether it is `n`.
abbrev pub holding : {A R : Type 0} → Sending A R → ℕ → Bool
holding (signals m) n = m == n
holding (sends_up m) n = m == n
holding (wakes m) n = m == n
holding (signals_drop m) n = m == n
holding s n = false

abbrev pub in_state : Word → ℕ → Bool
in_state (token m) n = m == n
in_state w n = false

-- A thread that waits on the token `n` can be woken, or is.
abbrev pub heard : {A R : Type 0} → Receiving → Word → (ℕ → Bool) → ℕ → Sending A R → Bool
heard (waits b n) w wk nt s = ltb n nt && (in_state w n || (wk n || holding s n))
heard r w wk nt s = true

abbrev pub apart : {A R : Type 0} → Word → (ℕ → Bool) → ℕ → Sending A R → Bool
apart (token n) wk nt s =
    ltb n nt && (if wk n then false else (if holding s n then false else true))
apart w wk nt s = true

abbrev pub early : {A R : Type 0} → ℕ → Sending A R → Bool
early nt (signals m) = ltb m nt
early nt (sends_up m) = ltb m nt
early nt (wakes m) = ltb m nt
early nt (signals_drop m) = ltb m nt
early nt s = true

module _ {A R : Type 0} where
  -- Tokens are new when a receiver takes them.
  pub record Tokened (s : Channel A R) : Type 0 where
    pub old : (n : ℕ) → s.woken n ≡ true → n < s.next_token
    pub early : early s.next_token s.sender ≡ true
    pub apart : apart s.state s.woken s.next_token s.sender ≡ true
    pub heard : heard s.receiver s.state s.woken s.next_token s.sender ≡ true

  receiver-Tokened :
      (r : Receiving) (w : Word) (o acc rcv : Option A) (u : MyUpgrade R) (wk : ℕ → Bool) (nt : ℕ)
      (np : NextPort) (s : Sending A R)
      → Tokened (channel w o u wk nt np s r acc rcv)
      → Tokened (receiver_goes r (channel w o u wk nt np s r acc rcv))
  receiver-Tokened (loads true) empty none none none u wk nt np idle h = record {
    old = λ n. ground (arith, h.old n);
    early = ground arith;
    apart = ground (arith, h.old nt);
    heard = ground arith;
  }
  receiver-Tokened r w o acc rcv u wk nt np s h = record {
    old = λ n. ground (arith, h.old n);
    early = ground arith;
    apart = ground (arith, h.old nt);
    heard = ground arith;
  }

  sender-Tokened :
      (s : Sending A R) (w : Word) (o acc rcv : Option A) (u : MyUpgrade R) (wk : ℕ → Bool) (nt : ℕ)
      (np : NextPort) (r : Receiving)
      → InOrder (channel w o u wk nt np s r acc rcv)
      → Handed (channel w o u wk nt np s r acc rcv)
      → Tokened (channel w o u wk nt np s r acc rcv)
      → Tokened (sender_goes s (channel w o u wk nt np s r acc rcv))
  sender-Tokened idle empty none none none nothing_sent wk nt np (loads true) ord port h = record {
    old = λ n. ground (arith, h.old n);
    early = ground arith;
    apart = ground arith;
    heard = ground arith;
  }
  sender-Tokened s w o acc rcv u wk nt np r ord port h = record {
    old = λ n. ground (arith, h.old n);
    early = ground arith;
    apart = ground arith;
    heard = ground arith;
  }

  pub step-Tokened :
      (e : Event A R) (s : Channel A R) → InOrder s → Handed s → Tokened s → Tokened (step e s)
  unfolding step
  step-Tokened sender_runs s ord port h =
      sender-Tokened s.sender s.state s.item s.accepted s.received s.upgrade s.woken s.next_token
        s.next_port s.receiver ord port h
  step-Tokened receiver_runs s ord port h =
      receiver-Tokened s.receiver s.state s.item s.accepted s.received s.upgrade s.woken
        s.next_token s.next_port s.sender h
  step-Tokened e s ord port h = record {
    old = λ n. ground (arith, h.old n);
    early = ground arith;
    apart = ground arith;
    heard = ground arith;
  }

  pub apart-Asleep :
      (w : Word) (wk : ℕ → Bool) (nt : ℕ) (s : Sending A R) → apart w wk nt s ≡ true → Asleep w wk
  apart-Asleep (token n) wk nt s h = ground arith
  apart-Asleep empty wk nt s h = tt
  apart-Asleep has_data wk nt s h = tt
  apart-Asleep disconnected wk nt s h = tt
