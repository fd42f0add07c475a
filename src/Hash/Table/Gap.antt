-- ===== src/Hash/Table/Gap.antt =====
-- collections/hash/table.rs: a table with a gap in a run of full buckets, as `take` leaves it, and
-- what `GapThenFull::shift` makes of it.
pub mod Shift
pub mod Take
use native.Mathlib.Nat.{mod-lt}
use mathlib.Core.Path.{subst}
use rust_libstd.Prelude.{
  ℕ, zero, suc, ◌+◌, ◌%◌, ◌≤◌, ◌<◌, ◌≡◌, ◌≢◌, ◌⊎◌, ◌↔◌, refl, sym, ◌∙◌, ap, Bool, true, false,
  Option, none, some, length, set, get_or, ◌==◌, if◌then◌else◌, get_or-set, get_or-some, length-set,
  Bool-cases, inl, inr, arith,
}
use rust_libstd.Hash.Table.{
  Keys, make_hash, Entry, RawTable, next, displacement, capacity, peek, shift,
}
use rust_libstd.Hash.Table.Walk.{IsGentle, change-IsGentle, next-lt, next-apart, distance_back}
use rust_libstd.Hash.Table.State.{
  height_of, height, full_count, full_count-set, fullness, Has, IsTable,
}
use rust_libstd.Hash.Table.Write.{peek-same}

pub not-same : (i j : ℕ) → i ≢ j → (i == j) ≡ false
not-same i j ne = ground arith

pub same-test : (i j : ℕ) → i ≡ j → (i == j) ≡ true
same-test i j e = ground arith

module _ {K V : Type 0} (keys : Keys K) where
  -- The heights with that of `gap` set to `m`.
  abbrev pub bridged : RawTable K V → ℕ → ℕ → ℕ → ℕ
  bridged t gap m j = if gap == j then m else height t j

  -- In order but for the bucket `gap`, which is empty; the bucket `p` is empty as well.
  pub record Gapped (p : ℕ) (t : RawTable K V) (gap m : ℕ) : Type 0 where
    pub gentle : IsGentle (capacity t) (bridged t gap m)
    pub at : gap < capacity t
    pub empty_gap : peek t gap ≡ none
    pub end : p < capacity t
    pub empty : peek t p ≡ none
    pub apart : p ≢ gap
    pub counted : t.size ≡ full_count t.buckets
    pub hashed : (i : ℕ) (e : Entry K V) → peek t i ≡ some e → e.hash ≡ make_hash keys e.key
    pub unique :
        (i j : ℕ) (e e' : Entry K V)
        → peek t i ≡ some e
        → peek t j ≡ some e'
        → e.key ≡ e'.key
        → i ≡ j

  -- The table `t'` has the elements of `t`, and is in order.
  pub record Closed (t t' : RawTable K V) : Type 0 where
    pub inv : IsTable keys t'
    pub capacity_same : capacity t' ≡ capacity t
    pub size_same : t'.size ≡ t.size
    pub has : (x : Entry K V) → Has t' x ↔ Has t x

  module _ (p : ℕ) (t : RawTable K V) (gap m : ℕ) (g : Gapped p t gap m) where
    abbrev c : ℕ
    c = capacity t

    height-bridged : (j : ℕ) → height t j ≡ (if gap == j then 0 else bridged t gap m j)
    height-bridged j = elim (Bool-cases (gap == j)) [
      | inl this ↦ let same : gap ≡ j = ground arith in rw (this, sym same, g.empty_gap) refl
      | inr other ↦ rw other refl
    ]

    -- The gap may stay where the next bucket is empty or stands at its ideal spot.
    pub gap-next : gap ≢ next c gap
    gap-next = next-apart c gap p g.at g.end g.apart

    pub closes : height t (next c gap) ≤ 1 → Closed t t
    closes low =
        let other : (gap == next c gap) ≡ false = not-same gap (next c gap) gap-next in
        record {
          inv = record {
            gentle =
                change-IsGentle c (bridged t gap m) g.gentle (height t) gap 0
                  (λ j hj. height-bridged j) g.at (λ j hj nx. omega arith) (rw other low);
            counted = g.counted;
            hashed = g.hashed;
            unique = g.unique;
          };
          capacity_same = refl;
          size_same = refl;
          has = λ x. (λ h. h, λ h. h);
        }
