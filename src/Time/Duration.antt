-- ===== src/Time/Duration.antt =====
-- time/duration.rs: `Duration`, its constructors, its checked operations and the operators on them.
-- A `u64` or a `u32` is a number, and arithmetic of the source that is unchecked wraps here.
pub mod Exact
pub mod Sum
use rust_libstd.Prelude.{
  ℕ, ◌+◌, ◌-◌, ◌*◌, ◌/◌, ◌%◌, ◌<◌, Bool, not, ◌&&◌, ◌||◌, Option, none, some, List, [], ◌∷◌, ltb,
  leb, ◌==◌, if◌then◌else◌, Outcome, ok, panic, ◌>>=◌, expect,
}
use rust_libstd.Prelude.Words.{
  as_u32, add32, sub32, mul32, add64, sub64, mul64, checked_add64, checked_sub64, checked_mul64,
}
use mathlib.Core.Option

abbrev pub nanos_per_sec : ℕ
nanos_per_sec = 1_000_000_000

abbrev pub nanos_per_milli : ℕ
nanos_per_milli = 1_000_000

abbrev pub nanos_per_micro : ℕ
nanos_per_micro = 1_000

abbrev pub millis_per_sec : ℕ
millis_per_sec = 1_000

abbrev pub micros_per_sec : ℕ
micros_per_sec = 1_000_000

pub record Duration : Type 0 where
  pub secs : ℕ
  pub nanos : ℕ

unfoldable pub new : ℕ → ℕ → Outcome Duration
new secs nanos = do
  s ← expect (checked_add64 secs (nanos / nanos_per_sec))
  ok (record { secs = s; nanos = nanos % nanos_per_sec })

unfoldable pub from_secs : ℕ → Duration
from_secs secs = record { secs = secs; nanos = 0 }

unfoldable pub from_millis : ℕ → Duration
from_millis millis = record {
  secs = millis / millis_per_sec;
  nanos = mul32 (as_u32 (millis % millis_per_sec)) nanos_per_milli;
}

unfoldable pub from_micros : ℕ → Duration
from_micros micros = record {
  secs = micros / micros_per_sec;
  nanos = mul32 (as_u32 (micros % micros_per_sec)) nanos_per_micro;
}

abbrev pub as_secs : Duration → ℕ
as_secs d = d.secs

abbrev pub subsec_nanos : Duration → ℕ
subsec_nanos d = d.nanos

-- The derived `Ord` compares `secs` first.
unfoldable pub lt : Duration → Duration → Bool
lt a b = ltb a.secs b.secs || (a.secs == b.secs && ltb a.nanos b.nanos)

carry_add : ℕ → ℕ → Option Duration
carry_add secs nanos =
    if leb nanos_per_sec nanos
    then Option.map (λ s. record { secs = s; nanos = sub32 nanos nanos_per_sec })
        (checked_add64 secs 1)
    else some (record { secs = secs; nanos = nanos })

unfoldable pub checked_add : Duration → Duration → Option Duration
unfolding carry_add Option.bind
checked_add self rhs =
    Option.bind (checked_add64 self.secs rhs.secs)
      (λ secs. carry_add secs (add32 self.nanos rhs.nanos))

borrow_sub : ℕ → ℕ → ℕ → Option Duration
borrow_sub secs self_nanos rhs_nanos =
    if leb rhs_nanos self_nanos
    then some (record { secs = secs; nanos = sub32 self_nanos rhs_nanos })
    else Option.map
        (λ s. record { secs = s; nanos = sub32 (add32 self_nanos nanos_per_sec) rhs_nanos })
        (checked_sub64 secs 1)

unfoldable pub checked_sub : Duration → Duration → Option Duration
unfolding borrow_sub Option.bind
checked_sub self rhs =
    Option.bind (checked_sub64 self.secs rhs.secs) (λ secs. borrow_sub secs self.nanos rhs.nanos)

unfoldable pub checked_mul : Duration → ℕ → Option Duration
unfolding Option.bind
checked_mul self rhs =
    let total_nanos = mul64 self.nanos rhs in
    let extra_secs = total_nanos / nanos_per_sec in
    let nanos = as_u32 (total_nanos % nanos_per_sec) in
    Option.map (λ secs. record { secs = secs; nanos = nanos })
      (Option.bind (checked_mul64 self.secs rhs) (λ s. checked_add64 s extra_secs))

unfoldable pub checked_div : Duration → ℕ → Option Duration
checked_div self rhs =
    let secs = self.secs / rhs in
    let carry = sub64 self.secs (mul64 secs rhs) in
    let extra_nanos = mul64 carry nanos_per_sec / rhs in
    if not (rhs == 0)
    then some (record { secs = secs; nanos = add32 (self.nanos / rhs) (as_u32 extra_nanos) })
    else none

-- The operators, and `sum` over an iterator.
unfoldable pub add : Duration → Duration → Outcome Duration
add self rhs = expect (checked_add self rhs)

unfoldable pub sub : Duration → Duration → Outcome Duration
sub self rhs = expect (checked_sub self rhs)

unfoldable pub mul : Duration → ℕ → Outcome Duration
mul self rhs = expect (checked_mul self rhs)

unfoldable pub div : Duration → ℕ → Outcome Duration
div self rhs = expect (checked_div self rhs)

sum_from : Duration → List Duration → Outcome Duration
sum_from a [] = ok a
sum_from a (b ∷ ds) = do s ← add a b; sum_from s ds

unfoldable pub sum : List Duration → Outcome Duration
unfolding sum_from
sum ds = do zero_duration ← new 0 0; sum_from zero_duration ds
