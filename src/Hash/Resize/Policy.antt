-- ===== src/Hash/Resize/Policy.antt =====
-- collections/hash/map.rs: the raw capacity that `DefaultResizePolicy` chooses.
use native.Mathlib.Nat.{pow-suc}
use rust_libstd.Prelude.{
  ℕ, zero, suc, ◌+◌, ◌*◌, ◌/◌, ◌^◌, ◌≤◌, ◌<◌, ◌≡◌, ◌⊎◌, refl, sym, ◌∙◌, ap, max, true, false, leb,
  ltb, ◌==◌, some, ok, arith, Bool-cases, inl, inr,
}
use rust_libstd.Prelude.Words.{mul64}
use rust_libstd.Hash.Resize.{next_power, raw_capacity, capacity_of}

doubled : (p k : ℕ) → p * 2 ^ suc k ≡ p * 2 * 2 ^ k
doubled p k = rw pow-suc (omega arith)

-- The powers of two from `p` on reach `n`, and the first that does is below `2 n`.
next_power-some :
    (fuel p n : ℕ)
    → n ≤ p * 2 ^ fuel
    → (r : ℕ) × (next_power (suc fuel) p n ≡ some r)
      × (n ≤ r)
      × ((r ≡ p) ⊎ (r < n + n))
      × ((k : ℕ) × (r ≡ p * 2 ^ k))
unfolding next_power
next_power-some zero p n le =
    let there : leb n p ≡ true = ground arith in
    rw there (p, refl, ground arith, inl refl, (0, omega arith))
next_power-some (suc fuel) p n le = elim (Bool-cases (leb n p)) [
  | inl there ↦ rw there (p, refl, ground arith, inl refl, (0, omega arith))
  | inr beyond ↦
      let (r, runs, above, small, (k, is)) =
        next_power-some fuel (p * 2) n (omega (arith, le, doubled p fuel)) in
      rw beyond
        (r, runs, above, inr (ground (arith, small, beyond)), (suc k, is ∙ sym (doubled p k)))
]

mul64-small : (a b : ℕ) → a * b < 2 ^ 64 → mul64 a b ≡ a * b
mul64-small a b h = omega (arith, h)

capacity_of-room :
    (len r : ℕ)
    → 32 ≤ r
    → r < 2 ^ 60
    → len * 11 / 10 ≤ r
    → (len ≤ capacity_of r) × (capacity_of r < r)
unfolding capacity_of
capacity_of-room len r large lt above =
    let product : mul64 r 10 ≡ r * 10 = mul64-small r 10 (omega (arith, lt)) in
    let exact : capacity_of r ≡ (r * 10 + 9) / 11 = omega (arith, product, lt) in
    rw exact (omega (arith, above), omega (arith, large))

-- For 1 up to 2^58 elements raw_capacity returns a power of two below 2^60 whose capacity, by the
-- function capacity of the same policy, is at least the number of elements and below the raw
-- capacity, so that an empty bucket is left.
pub raw_capacity-room :
    (len : ℕ)
    → 0 < len
    → len ≤ 2 ^ 58
    → (r : ℕ) × (raw_capacity len ≡ ok r)
      × (len ≤ capacity_of r)
      × (capacity_of r < r)
      × (r < 2 ^ 60)
      × ((k : ℕ) × (r ≡ 2 ^ k))
unfolding raw_capacity capacity_of
raw_capacity-room len positive small =
    let raw : ℕ = mul64 len 11 / 10 in
    let exact : mul64 len 11 ≡ len * 11 = mul64-small len 11 (omega (arith, small)) in
    let (p, runs, above, near, (k, is)) = next_power-some 63 1 raw (omega (arith, exact, small)) in
    let checks : raw_capacity len ≡ ok (max 32 p) =
      let not_zero : (len == 0) ≡ false = ground arith in
      let fits : ltb raw len ≡ false = ground (arith, exact) in rw (not_zero, fits, runs) refl in
    elim (Bool-cases (leb 32 p)) [
      | inl large ↦
          let same : max 32 p ≡ p = ground arith in
          let le : 32 ≤ p = ground arith in
          let lt : p < 2 ^ 60 = ground (arith, near, small, exact) in
          let (room, spare) = capacity_of-room len p le lt (omega (arith, above, exact)) in
          (p, checks ∙ ap ok same, room, spare, lt, (k, omega (arith, is)))
      | inr small_p ↦
          let same : max 32 p ≡ 32 = ground arith in
          let (room, spare) =
            capacity_of-room len 32 (omega arith) (omega arith)
              (ground (arith, above, exact, small_p)) in
          (32, checks ∙ ap ok same, room, spare, omega arith, (5, refl))
    ]

-- No elements need no bucket, and others leave one empty.
pub raw_capacity-less :
    (n r : ℕ) → n ≤ 2 ^ 58 → raw_capacity n ≡ ok r → ((n ≡ 0) ⊎ (n < r)) × (n ≡ 0 → r ≡ 0)
unfolding raw_capacity
raw_capacity-less zero r small is = (inl refl, λ e. cc is)
raw_capacity-less (suc n) r small is =
    let (r', chosen, room, spare, below, power) = raw_capacity-room (suc n) (omega arith) small in
    let same : r' ≡ r = cc (chosen, is) in
    (inr (omega (arith, room, spare, same)), λ e. absurd (omega (arith, e)))
