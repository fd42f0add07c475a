-- ===== src/Hash/Table/Gap/Shift.antt =====
-- collections/hash/table.rs: `GapThenFull::shift` moves the gap of a table one bucket on.
use native.Mathlib.Nat.{mod-lt}
use mathlib.Core.Path.{subst}
use rust_libstd.Prelude.{
  ℕ, suc, ◌%◌, ◌<◌, ◌≡◌, ◌≢◌, ◌⊎◌, ◌↔◌, refl, sym, ◌∙◌, ap, Option, none, some, length, set, get_or,
  ◌==◌, if◌then◌else◌, get_or-set, length-set, Bool-cases, inl, inr, arith,
}
use rust_libstd.Hash.Table.{Keys, Entry, RawTable, next, displacement, capacity, peek, shift}
use rust_libstd.Hash.Table.Walk.{IsGentle, change-IsGentle, next-lt, distance_back}
use rust_libstd.Hash.Table.State.{height_of, height, full_count, full_count-set, fullness, Has}
use rust_libstd.Hash.Table.Gap.{not-same, same-test, bridged, Gapped, Closed, gap-next}
use rust_libstd.Hash.Table.Write.{peek-same}

module _ {K V : Type 0} (keys : Keys K) (p : ℕ) (t : RawTable K V) (gap m : ℕ)
    (g : Gapped keys p t gap m) where
  abbrev c : ℕ
  c = capacity t

  module _ (f : ℕ) (nx : next c gap ≡ f) (e : Entry K V) (n : ℕ) (here : peek t f ≡ some e)
      (far : displacement c f e.hash ≡ suc n) where
    hf : f < c
    hf = omega (arith, nx, next-lt c gap g.at)

    gap-f : gap ≢ f
    gap-f same = gap-next keys p t gap m g (same ∙ sym nx)

    pub cap : capacity (shift gap f e t) ≡ c
    cap = length-set (set t.buckets gap (some e)) f none ∙ length-set t.buckets gap (some e)

    peek-shift :
        (j : ℕ)
        → peek (shift gap f e t) j
          ≡ (if f == j then none else if gap == j then some e else peek t j)
    peek-shift j =
        let hf' : f < length (set t.buckets gap (some e)) =
          rw (length-set t.buckets gap (some e)) hf in
        rw
          (
            get_or-set (set t.buckets gap (some e)) f j none none hf',
            get_or-set t.buckets gap j (some e) none g.at,
          )
          refl

    shift-f : peek (shift gap f e t) f ≡ none
    shift-f = let this = same-test f f refl in rw (peek-shift f, this) refl

    shift-gap : peek (shift gap f e t) gap ≡ some e
    shift-gap =
        let other = not-same f gap (λ it. gap-f (sym it)) in
        let this = same-test gap gap refl in rw (peek-shift gap, other, this) refl

    shift-other : (j : ℕ) → gap ≢ j → f ≢ j → peek (shift gap f e t) j ≡ peek t j
    shift-other j a b =
        let one = not-same f j b in let two = not-same gap j a in rw (peek-shift j, one, two) refl

    shift-cases :
        (j : ℕ) (x : Entry K V)
        → peek (shift gap f e t) j ≡ some x
        → ((gap ≡ j) × (x ≡ e)) ⊎ ((gap ≢ j) × (f ≢ j) × (peek t j ≡ some x))
    shift-cases j x h = elim (Bool-cases (gap == j)) [
      | inl this ↦
          let same : gap ≡ j = ground arith in
          inl (
            same,
            peek-same (shift gap f e t) j x e h
                (ap (peek (shift gap f e t)) (sym same) ∙ shift-gap),
          )
      | inr other ↦
          let ne : gap ≢ j = ground arith in
          let nf : f ≢ j = λ same. cc (h, shift-f, ap (peek (shift gap f e t)) same) in
          inr (ne, nf, sym (shift-other j ne nf) ∙ h)
    ]

    ideal : displacement c gap e.hash ≡ n
    ideal =
        distance_back c (e.hash % c) gap n (mod-lt e.hash (omega (arith, g.at))) g.at
          (ap (λ i. displacement c i e.hash) nx ∙ far)

    tall : height t f ≡ suc (suc n)
    tall = rw here (ap suc far)

    height-shift :
        (j : ℕ) (o : Option (Entry K V))
        → peek (shift gap f e t) j ≡ o
        → height (shift gap f e t) j ≡ height_of c j o
    height-shift j o h = rw (cap, h) refl

    bridged-shift :
        (j : ℕ)
        → bridged keys (shift gap f e t) f (suc (suc n)) j
          ≡ (if gap == j then suc n else bridged keys t gap m j)
    bridged-shift j = elim (Bool-cases (f == j)) [
      | inl this ↦
          let same : f ≡ j = ground arith in
          let other = not-same gap j (λ it. gap-f (it ∙ sym same)) in
          rw (this, other) (sym tall ∙ ap (height t) same)
      | inr ahead ↦
          let nf : f ≢ j = ground arith in
          elim (Bool-cases (gap == j)) [
            | inl this ↦
                let same : gap ≡ j = ground arith in
                rw (ahead, this)
                  (ap (height (shift gap f e t)) (sym same)
                    ∙ height-shift gap (some e) shift-gap
                    ∙ ap suc ideal)
            | inr other ↦
                rw (ahead, other) (height-shift j (peek t j) (shift-other j (ground arith) nf))
          ]
    ]

    bridged_here : bridged keys t gap m gap ≡ m
    bridged_here = let this = same-test gap gap refl in rw this refl

    bridged-next : bridged keys t gap m (next c gap) ≡ suc (suc n)
    bridged-next =
        let other = not-same gap f gap-f in ap (bridged keys t gap m) nx ∙ (rw other tall)

    shift-IsGentle :
        IsGentle (capacity (shift gap f e t)) (bridged keys (shift gap f e t) f (suc (suc n)))
    shift-IsGentle =
        let to_f = g.gentle gap g.at in
        subst (λ c'. IsGentle c' (bridged keys (shift gap f e t) f (suc (suc n)))) (sym cap)
          (change-IsGentle c (bridged keys t gap m) g.gentle
            (bridged keys (shift gap f e t) f (suc (suc n))) gap (suc n) (λ j hj. bridged-shift j)
            g.at
            (λ j hj to. omega (
              arith,
              to_f,
              bridged_here,
              bridged-next,
              g.gentle j hj,
              ap (bridged keys t gap m) to,
            ))
            (omega (arith, bridged-next)))

    shift-counted : t.size ≡ full_count (shift gap f e t).buckets
    shift-counted =
        let hf' : f < length (set t.buckets gap (some e)) =
          rw (length-set t.buckets gap (some e)) hf in
        let first = full_count-set t.buckets gap (some e) g.at in
        let second = full_count-set (set t.buckets gap (some e)) f none hf' in
        let was : get_or (set t.buckets gap (some e)) f none ≡ some e =
          let other = not-same gap f gap-f in
          rw (get_or-set t.buckets gap f (some e) none g.at, other) here in
        omega (arith, first, second, ap fullness was, ap fullness g.empty_gap, g.counted)

    shift_unique :
        (i j : ℕ) (a b : Entry K V)
        → peek (shift gap f e t) i ≡ some a
        → peek (shift gap f e t) j ≡ some b
        → a.key ≡ b.key
        → i ≡ j
    shift_unique i j a b ha hb same = elim (shift-cases i a ha) [
      | inl (at, it) ↦ elim (shift-cases j b hb) [
        | inl (at', it') ↦ sym at ∙ at'
        | inr (ne, nf, was) ↦
            absurd (nf (g.unique f j e b here was (sym (ap (λ z. z.key) it) ∙ same)))
      ]
      | inr (ne, nf, was) ↦ elim (shift-cases j b hb) [
        | inl (at', it') ↦
            absurd (nf (g.unique f i e a here was (sym (ap (λ z. z.key) it') ∙ sym same)))
        | inr (ne', nf', was') ↦ g.unique i j a b was was' same
      ]
    ]

    pub shift-Gapped : Gapped keys p (shift gap f e t) f (suc (suc n))
    shift-Gapped = record {
      gentle = shift-IsGentle;
      at = rw cap hf;
      empty_gap = shift-f;
      end = rw cap g.end;
      empty =
          shift-other p (λ it. g.apart (sym it)) (λ it. cc (ap (peek t) it, here, g.empty))
          ∙ g.empty;
      apart = λ it. cc (ap (peek t) it, here, g.empty);
      counted = shift-counted;
      hashed = λ j x h. elim (shift-cases j x h) [
        | inl (at, it) ↦ rw it (g.hashed f e here)
        | inr (ne, nf, was) ↦ g.hashed j x was
      ];
      unique = shift_unique;
    }

    shift-Has : (x : Entry K V) → Has (shift gap f e t) x ↔ Has t x
    shift-Has x = (
      λ (j, h). elim (shift-cases j x h) [
        | inl (at, it) ↦ (f, here ∙ ap some (sym it))
        | inr (ne, nf, was) ↦ (j, was)
      ],
      λ (j, h). elim (Bool-cases (f == j)) [
        | inl this ↦
            let same : f ≡ j = ground arith in (gap, shift-gap ∙ sym here ∙ ap (peek t) same ∙ h)
        | inr other ↦
            let nf : f ≢ j = ground arith in
            (j, shift-other j (λ it. cc (ap (peek t) it, h, g.empty_gap)) nf ∙ h)
      ],
    )

    pub shift-Closed : (t' : RawTable K V) → Closed keys (shift gap f e t) t' → Closed keys t t'
    shift-Closed t' cl = record {
      inv = cl.inv;
      capacity_same = cl.capacity_same ∙ cap;
      size_same = cl.size_same;
      has = λ x. (λ h. (shift-Has x).0 ((cl.has x).0 h), λ h. (cl.has x).1 ((shift-Has x).1 h));
    }
