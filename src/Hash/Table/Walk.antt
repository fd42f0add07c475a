-- ===== src/Hash/Table/Walk.antt =====
-- collections/hash/table.rs: walking around the buckets, and heights that rise by one at most from
-- a bucket to the next.
use rust_libstd.Prelude.{
  ℕ, zero, suc, ◌+◌, ◌-◌, ◌≤◌, ◌<◌, ◌≡◌, ◌≢◌, refl, ap, ◌==◌, if◌then◌else◌, arith,
}
use rust_libstd.Hash.Table.{next, prev, distance}

changed_step :
    (i j m n rj rm rj' rm' : ℕ)
    → rj' ≡ (if i == j then n else rj)
    → rm' ≡ (if i == m then n else rm)
    → rm ≤ suc rj
    → (m ≡ i → n ≤ suc rj)
    → (i ≡ j → rm ≤ suc n)
    → rm' ≤ suc rj'
changed_step i j m n rj rm rj' rm' ej em step below above = ground arith

module _ (c : ℕ) where
  pub next-lt : (i : ℕ) → i < c → next c i < c
  next-lt i h = ground arith

  pub distance-lt : (a i : ℕ) → a < c → i < c → distance c a i < c
  distance-lt a i ha hi = ground arith

  pub distance-next :
      (a i : ℕ)
      → a < c
      → i < c
      → distance c a i + 1 < c
      → distance c a (next c i) ≡ distance c a i + 1
  distance-next a i ha hi h = ground arith

  -- One step nearer to `p`.
  pub distance-next_to :
      (i p : ℕ) → i < c → p < c → i ≢ p → distance c (next c i) p + 1 ≡ distance c i p
  distance-next_to i p hi hp ne = ground arith

  pub distance_self : (i : ℕ) → distance c i i ≡ 0
  distance_self i = ground arith

  pub distance-inj : (a i j : ℕ) → a < c → i < c → j < c → distance c a i ≡ distance c a j → i ≡ j
  distance-inj a i j ha hi hj h = ground arith

  pub next-inj : (i j : ℕ) → i < c → j < c → next c i ≡ next c j → i ≡ j
  next-inj i j hi hj h = ground arith

  pub next-prev : (i : ℕ) → i < c → (prev c i < c) × (next c (prev c i) ≡ i)
  next-prev i h = ground arith

  pub distance-prev :
      (a i n : ℕ) → a < c → i < c → distance c a i ≡ suc n → distance c a (prev c i) ≡ n
  distance-prev a i n ha hi h = ground arith

  pub next-apart : (i p : ℕ) → i < c → p < c → p ≢ i → i ≢ next c i
  next-apart i p hi hp ne = ground arith

  pub distance_back :
      (a i n : ℕ) → a < c → i < c → distance c a (next c i) ≡ suc n → distance c a i ≡ n
  distance_back a i n ha hi h = ground arith

  -- Heights: `r i` stands for a bucket's displacement and one more, and is 0 where it is empty.
  abbrev pub IsGentle : (ℕ → ℕ) → Type 0
  IsGentle r = (i : ℕ) → i < c → r (next c i) ≤ suc (r i)

  module _ (r : ℕ → ℕ) (gentle : IsGentle r) where
    -- One height changes.
    pub change-IsGentle :
        (r' : ℕ → ℕ) (i n : ℕ)
        → ((j : ℕ) → j < c → r' j ≡ (if i == j then n else r j))
        → i < c
        → ((j : ℕ) → j < c → next c j ≡ i → n ≤ suc (r j))
        → r (next c i) ≤ suc n
        → IsGentle r'
    change-IsGentle r' i n at hi below above j hj =
        changed_step i j (next c j) n (r j) (r (next c j)) (r' j) (r' (next c j)) (at j hj)
          (at (next c j) (next-lt j hj)) (gentle j hj) (below j hj)
          (λ same. omega (arith, above, ap r (ap (next c) same)))

    height-le-distance_from : (p n i : ℕ) → p < c → i < c → r p ≡ 0 → distance c p i ≡ n → r i ≤ n
    height-le-distance_from p zero i hp hi e d =
        let same : i ≡ p = ground arith in rw (same, e) (omega arith)
    height-le-distance_from p (suc n) i hp hi e d =
        let (lt, back) = next-prev i hi in
        let before = height-le-distance_from p n (prev c i) hp lt e (distance-prev p i n hp hi d) in
        omega (arith, before, ap r back, gentle (prev c i) lt)

    -- Behind an empty bucket the heights are at most the distance from it.
    pub height-le-distance : (p i : ℕ) → p < c → i < c → r p ≡ 0 → r i ≤ distance c p i
    height-le-distance p i hp hi e = height-le-distance_from p (distance c p i) i hp hi e refl

    climb_from :
        (n a i j : ℕ)
        → a < c
        → i < c
        → j < c
        → distance c a i + n ≡ distance c a j
        → r j ≡ suc (distance c a j)
        → suc (distance c a i) ≤ r i
    climb_from zero a i j ha hi hj d e =
        let same : i ≡ j = distance-inj a i j ha hi hj (omega arith) in rw same (omega arith)
    climb_from (suc n) a i j ha hi hj d e =
        let far = distance-lt a j ha hj in
        let step = distance-next a i ha hi (omega arith) in
        let up = climb_from n a (next c i) j ha (next-lt i hi) hj (omega arith) e in
        omega (arith, up, step, gentle i hi)

    -- On the way from its ideal bucket `a` to where an element stands, all buckets are as high as
    -- the element would be there.
    pub climb :
        (a i j : ℕ)
        → a < c
        → i < c
        → j < c
        → distance c a i ≤ distance c a j
        → r j ≡ suc (distance c a j)
        → suc (distance c a i) ≤ r i
    climb a i j ha hi hj d e =
        climb_from (distance c a j - distance c a i) a i j ha hi hj (omega arith) e
