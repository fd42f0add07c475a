-- ===== src/Tests/DurationTests.antt =====
-- time/duration.rs: the inputs of its tests, and the theorems at concrete durations.
use rust_libstd.Prelude.{ℕ, ◌+◌, ◌*◌, ◌≤◌, ◌<◌, ◌≡◌, refl, some, none, [], ◌∷◌, ok, arith, expect}
use rust_libstd.Prelude.{inr}
use rust_libstd.Prelude.Int.{pos, negsuc}
use rust_libstd.Time.Timespec.{Timespec, sub_timespec}
use rust_libstd.Time.Timespec.Span.{sub_timespec-span}
use rust_libstd.Time.Duration.{
  Duration, new, checked_add, checked_sub, checked_mul, checked_div, sum, add,
}
use rust_libstd.Time.Duration.Exact.{
  IsDuration, total, of_total, checked_add-total, checked_div_bounds, new_lem,
}

abbrev seconds : ℕ → ℕ → Duration
seconds s n = record { secs = s; nanos = n }

abbrev half : Duration
half = seconds 0 500_000_000

carries : checked_add half (seconds 0 500_000_001) ≡ some (seconds 1 1)
unfolding checked_add
carries = refl

overflows : checked_add (seconds 1 0) (seconds 18_446_744_073_709_551_615 0) ≡ none
unfolding checked_add
overflows = refl

borrows : checked_sub (seconds 1 0) (seconds 0 1) ≡ some (seconds 0 999_999_999)
unfolding checked_sub
borrows = refl

divides : checked_div (seconds 99 999_999_000) 100 ≡ some (seconds 0 999_999_990)
unfolding checked_div
divides = refl

multiplies : checked_mul (seconds 0 500_000_001) 4000 ≡ some (seconds 2000 4000)
unfolding checked_mul
multiplies = refl

sums : sum (half ∷ half ∷ seconds 2 1 ∷ []) ≡ ok (seconds 3 1)
unfolding sum new add checked_add
sums = refl

checked_add-total_example :
    checked_add half (seconds 1 500_000_001) ≡ of_total (total half + total (seconds 1 500_000_001))
checked_add-total_example =
    checked_add-total half (seconds 1 500_000_001) (omega arith) (omega arith)

checked_div_bounds_example :
    (r : Duration) × (checked_div (seconds 1 1) 3 ≡ some r)
    × IsDuration r
    × (total r * 3 ≤ total (seconds 1 1))
    × (total (seconds 1 1) < (total r + 2) * 3)
checked_div_bounds_example =
    checked_div_bounds (seconds 1 1) 3 (omega arith) (omega arith) (omega arith)

new_lem_example : new 4 1_500_000_000 ≡ expect (of_total (4 * 1_000_000_000 + 1_500_000_000))
new_lem_example = new_lem 4 1_500_000_000 (omega arith) (omega arith)

-- A second and a half before the epoch, and two and a quarter after it.
abbrev early : Timespec
early = record { tv_sec = negsuc 1; tv_nsec = 500_000_000 }

abbrev late : Timespec
late = record { tv_sec = pos 2; tv_nsec = 250_000_000 }

sub_timespec-span_example :
    sub_timespec 2 early late ≡ some (ok (inr (record { secs = 3; nanos = 750_000_000 })))
sub_timespec-span_example =
    sub_timespec-span 0 early late
      (record { high = omega arith; low = omega arith; nsec_fit = omega arith })
      (record { high = omega arith; low = omega arith; nsec_fit = omega arith })
