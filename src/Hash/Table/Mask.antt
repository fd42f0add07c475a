-- ===== src/Hash/Table/Mask.antt =====
-- collections/hash/table.rs: the displacement as the source computes it, with wrapping arithmetic
-- and the mask.
use native.Mathlib.Nat.{
  mul_assoc, add-mul, div-lt_iff_lt-mul, mod-lt, mod-eq_of_lt, mod-add-div', add-mul-mod_self_right,
}
use rust_libstd.Prelude.{
  ℕ, ◌+◌, ◌-◌, ◌*◌, ◌/◌, ◌%◌, ◌<◌, ◌≡◌, sym, ◌∙◌, ap, leb, arith, Bool-cases, inl, inr,
}
use rust_libstd.Prelude.Words.{u64_mod, sub64}
use rust_libstd.Hash.Table.{distance, displacement}

module _ (c : ℕ) where
  -- A multiple of the capacity makes no difference to the remainder.
  mod-mod_mul : (n m : ℕ) → n % (m * c) % c ≡ n % c
  mod-mod_mul n m =
      let whole : n % (m * c) + n / (m * c) * m * c ≡ n =
        rw (mul_assoc (n / (m * c)) m c) (mod-add-div' n (m * c)) in
      sym (add-mul-mod_self_right (n % (m * c)) (n / (m * c) * m) c) ∙ ap (λ x. x % c) whole

  around : (idx a : ℕ) → idx < c → a < c → (idx + c - a) % c ≡ distance c a idx
  around idx a hi ha = elim (Bool-cases (leb a idx)) [
    | inl le ↦
        let back : idx + c - a ≡ idx - a + 1 * c = ground arith in
        rw (le, back, add-mul-mod_self_right (idx - a) 1 c) (mod-eq_of_lt (omega arith))
    | inr gt ↦ rw gt (mod-eq_of_lt (ground arith))
  ]

  expand : (q d : ℕ) → (q + 1 + d) * c ≡ q * c + c + d * c
  expand q d = add-mul (q + 1) d c ∙ ap (λ x. x + d * c) (add-mul q 1 c ∙ (omega arith))

  masked :
      (m idx hash : ℕ)
      → idx < c
      → hash < m * c
      → (idx + m * c - hash) % (m * c) % c ≡ distance c (hash % c) idx
  masked m idx hash hi hh =
      let split : hash % c + hash / c * c ≡ hash = mod-add-div' hash c in
      let ha : hash % c < c = mod-lt hash (omega (arith, hi)) in
      let below : hash / c < m = (div-lt_iff_lt-mul (omega (arith, hi))).1 hh in
      let parts : m ≡ hash / c + 1 + (m - hash / c - 1) = omega (arith, below) in
      let more : m * c ≡ hash / c * c + c + (m - hash / c - 1) * c =
        ap (λ x. x * c) parts ∙ expand (hash / c) (m - hash / c - 1) in
      let whole : idx + m * c - hash ≡ idx + c - hash % c + (m - hash / c - 1) * c =
        omega (arith, split, more, ha) in
      mod-mod_mul (idx + m * c - hash) m
      ∙ ap (λ x. x % c) whole
      ∙ add-mul-mod_self_right (idx + c - hash % c) (m - hash / c - 1) c
      ∙ around idx (hash % c) hi ha

  -- The capacity divides the number of words, as a power of two does.
  pub displacement_masked :
      (m idx hash : ℕ)
      → m * c ≡ u64_mod
      → idx < c
      → hash < u64_mod
      → sub64 idx hash % c ≡ displacement c idx hash
  displacement_masked m idx hash words hi hh =
      ap (λ w. (idx + w - hash) % w % c) (sym words)
      ∙ masked m idx hash hi (omega (arith, words, hh))
