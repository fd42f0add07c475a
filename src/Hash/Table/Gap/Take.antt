-- ===== src/Hash/Table/Gap/Take.antt =====
-- collections/hash/table.rs: `FullBucket::take` leaves a gap.
use mathlib.Core.Path.{subst}
use rust_libstd.Prelude.{
  ℕ, suc, ◌-◌, ◌<◌, ◌≡◌, ◌≢◌, ◌↔◌, refl, sym, ◌∙◌, ap, ◌==◌, none, some, length-set, get_or-some,
  arith, Bool-cases, inl, inr,
}
use rust_libstd.Hash.Table.{Keys, Entry, RawTable, next, capacity, peek, take}
use rust_libstd.Hash.Table.Walk.{IsGentle}
use rust_libstd.Hash.Table.State.{height, full_count, full_count-set, fullness, Has, IsTable}
use rust_libstd.Hash.Table.Write.{peek-same, peek-write, height-write}
use rust_libstd.Hash.Table.Gap.{not-same, same-test, bridged, Gapped}

module _ {K V : Type 0} (keys : Keys K) (t : RawTable K V) (inv : IsTable keys t) (i : ℕ)
    (e : Entry K V) (here : peek t i ≡ some e) where
  hi : i < capacity t
  hi = get_or-some t.buckets i e here

  take-here : peek (take i t) i ≡ none
  take-here = let this = same-test i i refl in rw (peek-write t i hi none (t.size - 1) i, this) refl

  take-there : (j : ℕ) → i ≢ j → peek (take i t) j ≡ peek t j
  take-there j ne =
      let other = not-same i j ne in rw (peek-write t i hi none (t.size - 1) j, other) refl

  take-cases : (j : ℕ) (x : Entry K V) → peek (take i t) j ≡ some x → (i ≢ j) × (peek t j ≡ some x)
  take-cases j x h =
      let ne : i ≢ j = λ it. cc (ap (peek (take i t)) it, take-here, h) in
      (ne, sym (take-there j ne) ∙ h)

  bridged-take : (j : ℕ) → bridged keys (take i t) i (height t i) j ≡ height t j
  bridged-take j = elim (Bool-cases (i == j)) [
    | inl this ↦ let same : i ≡ j = ground arith in rw this (ap (height t) same)
    | inr other ↦ rw (other, height-write t i hi none (t.size - 1) j, other) refl
  ]

  take-IsGentle : IsGentle (capacity (take i t)) (bridged keys (take i t) i (height t i))
  take-IsGentle =
      subst (λ c. IsGentle c (bridged keys (take i t) i (height t i)))
        (sym (length-set t.buckets i none))
        (λ j hj. omega (arith, bridged-take j, bridged-take (next (capacity t) j), inv.gentle j hj))

  pub take-counted :
      t.size ≡ suc (take i t).size × ((take i t).size ≡ full_count (take i t).buckets)
  take-counted =
      let write = full_count-set t.buckets i none hi in
      (
        omega (arith, write, ap fullness here, inv.counted),
        omega (arith, write, ap fullness here, inv.counted),
      )

  pub take-Gapped :
      (p : ℕ) → p < capacity t → peek t p ≡ none → Gapped keys p (take i t) i (height t i)
  take-Gapped p hp empty =
      let ne : i ≢ p = λ it. cc (ap (peek t) it, here, empty) in
      record {
        gentle = take-IsGentle;
        at = rw (length-set t.buckets i none) hi;
        empty_gap = take-here;
        end = rw (length-set t.buckets i none) hp;
        empty = take-there p ne ∙ empty;
        apart = λ it. ne (sym it);
        counted = take-counted.1;
        hashed = λ j x h. inv.hashed j x (take-cases j x h).1;
        unique = λ j j' x x' h h' same.
            inv.unique j j' x x' (take-cases j x h).1 (take-cases j' x' h').1 same;
      }

  -- What the table has without the element.
  pub take-Has : (x : Entry K V) → Has (take i t) x ↔ ((x.key ≢ e.key) × Has t x)
  take-Has x = (
    λ (j, h).
        let (ne, was) = take-cases j x h in
        (λ same. ne (inv.unique i j e x here was (sym same)), (j, was)),
    λ (other, (j, was)). (
      j,
      take-there j
            (λ it. other (ap (λ y. y.key) (peek-same t j x e was (ap (peek t) (sym it) ∙ here))))
          ∙ was,
    ),
  )
