-- ===== src/Time/Duration/Sum.antt =====
-- time/duration.rs: the panicking operators, and `Sum` over an iterator.
use native.Mathlib.Nat.{add-zero, add_assoc, zero-add}
use rust_libstd.Prelude.{
  sym, ◌∙◌, leb, true, ◌-◌, ℕ, ◌+◌, ◌≡◌, none, some, List, [], ◌∷◌, expect, arith, Option-cases,
  inl, inr,
}
use rust_libstd.Time.Duration.{Duration, new, add, sum_from, sum, checked_add, checked_sub}
use rust_libstd.Time.Duration.Exact.{
  IsDuration, total, of_total, checked_add-total, checked_sub-total,
}

abbrev pub AllDurations : List Duration → Type 0
AllDurations [] = Unit
AllDurations (d ∷ ds) = IsDuration d × AllDurations ds

abbrev pub totals : List Duration → ℕ
totals [] = 0
totals (d ∷ ds) = total d + totals ds

of_total-total : (d : Duration) → IsDuration d → of_total (total d) ≡ some d
of_total-total d h = ground arith

pub of_total-IsDuration :
    (n : ℕ) {d : Duration} → of_total n ≡ some d → IsDuration d × (total d ≡ n)
of_total-IsDuration n e = ground arith

of_total_overflow : (n m : ℕ) → of_total n ≡ none → of_total (n + m) ≡ none
of_total_overflow n m e = ground arith

sum_from-total :
    (ds : List Duration) (a : Duration)
    → IsDuration a
    → AllDurations ds
    → sum_from a ds ≡ expect (of_total (total a + totals ds))
unfolding sum_from add
sum_from-total [] a ha hs = rw (add-zero, of_total-total a ha)
sum_from-total (b ∷ ds) a ha (hb, hs) = elim (Option-cases (of_total (total a + total b))) [
  | inl e ↦ rw (checked_add-total a b ha hb, e, ← add_assoc, of_total_overflow _ (totals ds) e)
  | inr (s, e) ↦
      let (hs', eq) = of_total-IsDuration _ e in
      rw (checked_add-total a b ha hb, e, ← add_assoc, ← eq) (sum_from-total ds s hs' hs)
]

-- The sum of a list of durations within their bounds is the duration of the sum of all their
-- nanoseconds, and a panic exactly when that sum has no duration.
sum-totals : (ds : List Duration) → AllDurations ds → sum ds ≡ expect (of_total (totals ds))
unfolding sum new
sum-totals ds hs =
    rw (← zero-add (totals ds))
      (sum_from-total ds (record { secs = 0; nanos = 0 }) (omega arith) hs)

-- For two durations within their bounds whose checked_add is some sum, checked_sub of the second
-- from that sum gives the first back.
checked_sub-checked_add :
    (a b : Duration) {s : Duration}
    → IsDuration a
    → IsDuration b
    → checked_add a b ≡ some s
    → checked_sub s b ≡ some a
checked_sub-checked_add a b {s} ha hb e =
    let (hs, eq) = of_total-IsDuration _ (sym (checked_add-total a b ha hb) ∙ e) in
    let le : leb (total b) (total s) ≡ true = ground arith in
    let back : total s - total b ≡ total a = omega arith in
    checked_sub-total s b hs hb ∙ rw (le, back) (of_total-total a ha)
