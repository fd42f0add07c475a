-- ===== src/Time/Duration/Exact.antt =====
-- The checked operations of `Duration` are exact arithmetic on the number of nanoseconds.
use rust_libstd.Prelude.{
  ℕ, ◌+◌, ◌-◌, ◌*◌, ◌/◌, ◌%◌, ◌≤◌, ◌<◌, ◌≡◌, ◌↔◌, true, Option, none, some, ltb, leb, if◌then◌else◌,
  expect, arith,
}
use rust_libstd.Prelude.Words.{u32_mod, u64_mod}
use rust_libstd.Time.Duration.{
  Duration, nanos_per_sec, new, from_millis, from_micros, lt, checked_add, checked_sub, checked_mul,
  checked_div,
}

-- What the comment on the field `nanos` promises, and that `secs` is a `u64`.
pub record IsDuration (d : Duration) : Type 0 where
  pub secs_fit : d.secs < u64_mod
  pub nanos_fit : d.nanos < nanos_per_sec

abbrev pub total : Duration → ℕ
total d = d.secs * nanos_per_sec + d.nanos

-- The duration of `n` nanoseconds, if a duration can be that long.
abbrev pub of_total : ℕ → Option Duration
of_total n =
    if ltb (n / nanos_per_sec) u64_mod
    then some (record { secs = n / nanos_per_sec; nanos = n % nanos_per_sec })
    else none

-- For two durations within their bounds, checked_add is the duration of the sum of their
-- nanoseconds, and none exactly when that sum has no duration.
pub checked_add-total :
    (a b : Duration) → IsDuration a → IsDuration b → checked_add a b ≡ of_total (total a + total b)
unfolding checked_add
checked_add-total a b ha hb = ground arith

-- For two durations within their bounds, checked_sub is the duration of the difference of their
-- nanoseconds, and none exactly when the second is longer.
pub checked_sub-total :
    (a b : Duration)
    → IsDuration a
    → IsDuration b
    → checked_sub a b ≡ (if leb (total b) (total a) then of_total (total a - total b) else none)
unfolding checked_sub
checked_sub-total a b ha hb = ground arith

product_lt : (n k : ℕ) → n < nanos_per_sec → k < u32_mod → n * k < u64_mod
product_lt n k hn hk = grind arith

-- For a duration within its bounds and a u32 factor, checked_mul is the duration of the product of
-- the nanoseconds and the factor, and none exactly when that product has no duration.
checked_mul-total :
    (a : Duration) (k : ℕ) → IsDuration a → k < u32_mod → checked_mul a k ≡ of_total (total a * k)
unfolding checked_mul
checked_mul-total a k ha hk =
    let fits : a.nanos * k < u64_mod = product_lt a.nanos k ha.nanos_fit hk in ground arith

div_bounds : (a k : ℕ) → 0 < k → (a / k * k ≤ a) × (a < a / k * k + k)
div_bounds a k pos = grind arith

lt_of_mul : (x y k : ℕ) → x * k < y * k → x < y
lt_of_mul x y k h = grind arith

-- For a duration within its bounds and a nonzero u32 divisor, checked_div returns a duration within
-- its bounds whose nanoseconds are at most the exact quotient and less than two nanoseconds below
-- it.
pub checked_div_bounds :
    (a : Duration) (k : ℕ)
    → IsDuration a
    → 0 < k
    → k < u32_mod
    → (r : Duration) × (checked_div a k ≡ some r)
      × IsDuration r
      × (total r * k ≤ total a)
      × (total a < (total r + 2) * k)
unfolding checked_div
checked_div_bounds a k ha pos hk =
    let q = a.secs / k in
    let c = a.secs - q * k in
    let e = c * nanos_per_sec / k in
    let n = a.nanos / k in
    let bq = div_bounds a.secs k pos in
    let be = div_bounds (c * nanos_per_sec) k pos in
    let bn = div_bounds a.nanos k pos in
    let small : n + e < nanos_per_sec = lt_of_mul (n + e) nanos_per_sec k (omega arith) in
    let q_fit : q ≤ a.secs = grind arith in
    let e₁ : q * k % u64_mod ≡ q * k = omega arith in
    let e₂ : (a.secs + u64_mod - q * k) % u64_mod ≡ c = omega arith in
    let e₃ : c * nanos_per_sec % u64_mod ≡ c * nanos_per_sec = omega arith in
    (
      record { secs = q; nanos = n + e },
      rw (e₁, e₂, e₃) (ground arith),
      record { secs_fit = omega arith; nanos_fit = small },
      omega arith,
      omega arith,
    )

pub checked_div-zero : (a : Duration) → checked_div a 0 ≡ none
unfolding checked_div
checked_div-zero a = ground arith

pub new_lem :
    (secs nanos : ℕ)
    → secs < u64_mod
    → nanos < u32_mod
    → new secs nanos ≡ expect (of_total (secs * nanos_per_sec + nanos))
unfolding new
new_lem secs nanos hs hn = ground arith

pub from_millis_lem :
    (millis : ℕ) → millis < u64_mod → some (from_millis millis) ≡ of_total (millis * 1_000_000)
unfolding from_millis
from_millis_lem millis h = ground arith

pub from_micros_lem :
    (micros : ℕ) → micros < u64_mod → some (from_micros micros) ≡ of_total (micros * 1_000)
unfolding from_micros
from_micros_lem micros h = ground arith

-- For two durations within their bounds, the derived order compares their numbers of nanoseconds.
lt-total : (a b : Duration) → IsDuration a → IsDuration b → (lt a b ≡ true) ↔ (total a < total b)
unfolding lt
lt-total a b ha hb = (ground arith, ground arith)
