-- ===== src/Hash/Table/Head.antt =====
-- collections/hash/table.rs: `head_bucket` finds an element at its ideal spot.
use mathlib.Core.Path.{subst}
use rust_libstd.Prelude.{
  ℕ, zero, suc, ◌≤◌, ◌<◌, ◌≡◌, ◌≢◌, refl, sym, ◌∙◌, ap, false, ◌==◌, Option, none, some, List, [],
  ◌∷◌, get_or, get_or-some, arith, Bool-cases, Option-cases, inl, inr,
}
use rust_libstd.Hash.Table.{
  Keys, Entry, RawTable, next, prev, distance, displacement, capacity, peek, head_bucket,
}
use rust_libstd.Hash.Table.Walk.{
  next-lt, next-prev, distance-lt, distance-prev, distance-next_to, distance_self, distance-inj,
}
use rust_libstd.Hash.Table.State.{height, full_count, IsTable, spare-Hole}
use rust_libstd.Hash.Table.Write.{peek-same}

pub some-full :
    {K V : Type 0} (bs : List (Option (Entry K V)))
    → 0 < full_count bs
    → (i : ℕ) × (e : Entry K V) × (get_or bs i none ≡ some e)
some-full [] h = absurd (omega arith)
some-full (none ∷ bs) h = let (i, e, at) = some-full bs h in (suc i, e, at)
some-full (some e ∷ bs) h = (0, e, refl)

module _ {K V : Type 0} (keys : Keys K) (t : RawTable K V) (inv : IsTable keys t) where
  -- The bucket `i` starts a cluster.
  abbrev pub Head : ℕ → Type 0
  Head i = (e : Entry K V) × (peek t i ≡ some e) × (displacement (capacity t) i e.hash ≡ 0)

  module _ (p : ℕ) (hp : p < capacity t) (empty : peek t p ≡ none) where
    -- Back from a full bucket to the first behind an empty one.
    some-Head :
        (n f : ℕ) (e : Entry K V)
        → peek t f ≡ some e
        → distance (capacity t) p f ≡ n
        → (i : ℕ) × (i < capacity t) × Head i
    some-Head zero f e full d =
        let hf = get_or-some t.buckets f e full in
        let same : p ≡ f =
          distance-inj (capacity t) p p f hp hp hf (distance_self (capacity t) p ∙ sym d) in
        absurd (cc (ap (peek t) same, full, empty))
    some-Head (suc n) f e full d =
        let hf = get_or-some t.buckets f e full in
        let (lt, back) = next-prev (capacity t) f hf in
        let tall : height t f ≡ suc (displacement (capacity t) f e.hash) = rw full refl in
        elim (Option-cases (peek t (prev (capacity t) f))) [
          | inl gone ↦
              let low : height t (prev (capacity t) f) ≡ 0 = rw gone refl in
              let step = inv.gentle (prev (capacity t) f) lt in
              (f, hf, (e, full, omega (arith, tall, low, step, ap (height t) back)))
          | inr (e', before) ↦
              some-Head n (prev (capacity t) f) e' before (distance-prev (capacity t) p f n hp hf d)
        ]

  not_home :
      (idx : ℕ) (e : Entry K V)
      → peek t idx ≡ some e
      → (displacement (capacity t) idx e.hash == 0) ≡ false
      → ¬ Head idx
  not_home idx e here away (e', here', home) =
      let same = peek-same t idx e e' here here' in
      let home_e = ap (λ x. displacement (capacity t) idx x.hash) same ∙ home in
      ground (arith, home_e, away)

  head_bucket-from :
      (fuel idx i : ℕ)
      → idx < capacity t
      → i < capacity t
      → Head i
      → distance (capacity t) idx i < fuel
      → (j : ℕ) × (head_bucket fuel t idx ≡ some j) × (j < capacity t) × Head j
  unfolding head_bucket
  head_bucket-from zero idx i h hi head lt = absurd (omega arith)
  head_bucket-from (suc fuel) idx i h hi head lt =
      let c = capacity t in
      elim (Option-cases (peek t idx)) [
        | inl gone ↦
            let ne : idx ≢ i = λ it. cc (ap (peek t) it, gone, head.1) in
            let nearer = distance-next_to c idx i h hi ne in
            rw gone (
              head_bucket-from fuel (next c idx) i (next-lt c idx h) hi head
                (omega (arith, nearer, lt)))
        | inr (e, here) ↦ elim (Bool-cases (displacement c idx e.hash == 0)) [
          | inl home ↦ rw (here, home) (idx, refl, h, (e, here, ground arith))
          | inr away ↦
              let ne : idx ≢ i = λ it. not_home idx e here away (subst Head (sym it) head) in
              let nearer = distance-next_to c idx i h hi ne in
              rw (here, away)
                (head_bucket-from fuel (next c idx) i (next-lt c idx h) hi head
                  (omega (arith, nearer, lt)))
        ]
      ]

  -- In a table in order with an element and an empty bucket, and with fuel of at least the
  -- capacity: head_bucket returns the index of a bucket with an element at its ideal spot.
  pub head_bucket-Head :
      (fuel : ℕ)
      → 0 < t.size
      → t.size < capacity t
      → capacity t ≤ fuel
      → (i : ℕ) × (head_bucket fuel t 0 ≡ some i) × (i < capacity t) × Head i
  head_bucket-Head fuel filled spare enough =
      let (p, hp, empty) = spare-Hole t.buckets (omega (arith, inv.counted, spare)) in
      let (f, e, full) = some-full t.buckets (omega (arith, inv.counted, filled)) in
      let (i, hi, head) = some-Head p hp empty (distance (capacity t) p f) f e full refl in
      let zero_lt : 0 < capacity t = omega (arith, spare) in
      head_bucket-from fuel 0 i zero_lt hi head
        (omega (arith, distance-lt (capacity t) 0 i zero_lt hi, enough))
