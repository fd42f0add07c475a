-- ===== src/Hash/Resize/Placing.antt =====
-- collections/hash/map.rs: `insert_hashed_ordered` puts an element into the first empty bucket.
use native.Mathlib.Nat.{mod-lt}
use rust_libstd.Prelude.{
  ℕ, zero, suc, ◌+◌, ◌%◌, ◌≤◌, ◌<◌, ◌≡◌, ◌≢◌, ◌⊎◌, ◌↔◌, refl, ap, none, some, length-set, arith,
  Option-cases, inl, inr,
}
use rust_libstd.Hash.Table.{Entry, RawTable, next, distance, capacity, peek, put}
use rust_libstd.Hash.Table.Walk.{next-lt, distance-lt, distance-next_to}
use rust_libstd.Hash.Table.State.{full_count, full_count-set, fullness, Has, spare-Hole}
use rust_libstd.Hash.Table.Write.{fill-Has}
use rust_libstd.Hash.Resize.{ordered_loop, insert_hashed_ordered}

module _ {K V : Type 0} where
  abbrev pub IsCounted : RawTable K V → Type 0
  IsCounted t = t.size ≡ full_count t.buckets

  -- The table `t'` is `t` with one element more.
  pub record Placed (t : RawTable K V) (e : Entry K V) (t' : RawTable K V) : Type 0 where
    pub counted : IsCounted t'
    pub capacity_same : capacity t' ≡ capacity t
    pub one_more : t'.size ≡ t.size + 1
    pub has : (x : Entry K V) → Has t' x ↔ ((x ≡ e) ⊎ Has t x)

  put-Placed :
      (t : RawTable K V) (i : ℕ) (e : Entry K V)
      → IsCounted t
      → i < capacity t
      → peek t i ≡ none
      → Placed t e (put i e t)
  put-Placed t i e counted hi gone = record {
    counted = omega (arith, full_count-set t.buckets i (some e) hi, ap fullness gone, counted);
    capacity_same = length-set t.buckets i (some e);
    one_more = refl;
    has = fill-Has t i hi e (t.size + 1) gone;
  }

  ordered_loop-Placed :
      (fuel : ℕ) (t : RawTable K V) (e : Entry K V) (p i : ℕ)
      → IsCounted t
      → p < capacity t
      → peek t p ≡ none
      → i < capacity t
      → distance (capacity t) i p < fuel
      → (t' : RawTable K V) × (ordered_loop fuel t e i ≡ some t') × Placed t e t'
  unfolding ordered_loop
  ordered_loop-Placed zero t e p i counted hp empty hi lt = absurd (omega arith)
  ordered_loop-Placed (suc fuel) t e p i counted hp empty hi lt = elim (Option-cases (peek t i)) [
    | inl gone ↦ rw gone (put i e t, refl, put-Placed t i e counted hi gone)
    | inr (old, here) ↦
        let ne : i ≢ p = λ it. cc (ap (peek t) it, here, empty) in
        let nearer = distance-next_to (capacity t) i p hi hp ne in
        rw here (
          ordered_loop-Placed fuel t e p (next (capacity t) i) counted hp empty
            (next-lt (capacity t) i hi) (omega (arith, nearer, lt)))
  ]

  pub insert_hashed_ordered-Placed :
      (fuel : ℕ) (t : RawTable K V) (e : Entry K V)
      → IsCounted t
      → t.size < capacity t
      → capacity t ≤ fuel
      → (t' : RawTable K V) × (insert_hashed_ordered fuel t e ≡ some t') × Placed t e t'
  unfolding insert_hashed_ordered
  insert_hashed_ordered-Placed fuel t e counted spare enough =
      let (p, hp, empty) = spare-Hole t.buckets (omega (arith, counted, spare)) in
      let start : e.hash % capacity t < capacity t = mod-lt e.hash (omega (arith, spare)) in
      ordered_loop-Placed fuel t e p (e.hash % capacity t) counted hp empty start
        (omega (arith, distance-lt (capacity t) (e.hash % capacity t) p start hp, enough))
