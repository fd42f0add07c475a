-- ===== src/Net/Decimal.antt =====
-- The decimal text of an unsigned integer, as the formatting traits of the language write it (`{}`).
use native.Mathlib.Nat.{pow-suc}
use rust_libstd.Prelude.{
  ℕ, zero, suc, ◌+◌, ◌*◌, ◌/◌, ◌%◌, ◌^◌, ◌≤◌, ◌<◌, ◌≡◌, refl, List, [], ◌∷◌, ◌++◌, length, ltb,
  length-append, if◌then◌else◌, arith, Bool-cases, inl, inr, ltb→lt, lt→ltb,
}

unfoldable pub decimal_fuel : ℕ → ℕ → List ℕ
decimal_fuel zero n = []
decimal_fuel (suc fuel) n =
    let high = decimal_fuel fuel (n / 10) in
    if ltb n 10 then (b'0' + n) ∷ [] else high ++ (b'0' + n % 10) ∷ []

-- `n + 1` rounds are enough: each divides by ten.
unfoldable pub decimal : ℕ → List ℕ
unfolding decimal_fuel
decimal n = decimal_fuel (suc n) n

-- The text `t` has the decimal digits `ds`.
abbrev pub Digits : List ℕ → List ℕ → Type 0
Digits [] [] = Unit
Digits (c ∷ t) (d ∷ ds) = (c ≡ b'0' + d) × (d < 10) × Digits t ds
Digits [] (_ ∷ _) = ⊥
Digits (_ ∷ _) [] = ⊥

abbrev pub value : ℕ → List ℕ → ℕ
value r [] = r
value r (d ∷ ds) = value (r * 10 + d) ds

-- `t` is a number `n` in at least one and at most `most` digits.
pub record IsNumeral (most : ℕ) (t : List ℕ) (n : ℕ) : Type 0 where
  pub digits : List ℕ
  pub spelled : Digits t digits
  pub some_digit : 0 < length digits
  pub few : length digits ≤ most
  pub value_is : value 0 digits ≡ n

pub Digits-append : (t u ds es : List ℕ) → Digits t ds → Digits u es → Digits (t ++ u) (ds ++ es)
Digits-append [] u [] es h k = k
Digits-append [] u (d ∷ ds) es h k = absurd h
Digits-append (c ∷ t) u [] es h k = absurd h
Digits-append (c ∷ t) u (d ∷ ds) es (e, lt, h) k = (e, lt, Digits-append t u ds es h k)

value-append : (r d : ℕ) (ds : List ℕ) → value r (ds ++ d ∷ []) ≡ value r ds * 10 + d
value-append r d [] = refl
value-append r d (x ∷ ds) = value-append (r * 10 + x) d ds

one_digit-IsNumeral : (k n : ℕ) → n < 10 → IsNumeral (suc k) ((b'0' + n) ∷ []) n
one_digit-IsNumeral k n h = record {
  digits = n ∷ [];
  spelled = (refl, h, tt);
  some_digit = omega arith;
  few = omega arith;
  value_is = omega arith;
}

next_digit-IsNumeral :
    {k m : ℕ} {t : List ℕ} (d n : ℕ)
    → IsNumeral k t m
    → d < 10
    → m * 10 + d ≡ n
    → IsNumeral (suc k) (t ++ (b'0' + d) ∷ []) n
next_digit-IsNumeral {t = t} d n h lt e = record {
  digits = h.digits ++ d ∷ [];
  spelled = Digits-append t _ h.digits _ h.spelled (refl, lt, tt);
  some_digit = omega (arith, length-append h.digits (d ∷ []));
  few = omega (arith, length-append h.digits (d ∷ []), h.few);
  value_is = rw (value-append, h.value_is) e;
}

decimal_fuel-IsNumeral :
    (fuel k n : ℕ) → n < fuel → n < 10 ^ suc k → IsNumeral (suc k) (decimal_fuel fuel n) n
unfolding decimal_fuel
decimal_fuel-IsNumeral zero k n h below = absurd (omega arith)
decimal_fuel-IsNumeral (suc fuel) zero n h below =
    rw (lt→ltb n 10 below) (one_digit-IsNumeral 0 n below)
decimal_fuel-IsNumeral (suc fuel) (suc k) n h below = elim (Bool-cases (ltb n 10)) [
  | inl small ↦ rw small (one_digit-IsNumeral (suc k) n (ltb→lt _ _ small))
  | inr big ↦
      let ten : 10 ≤ n = ground arith in
      let high =
        decimal_fuel-IsNumeral fuel k (n / 10) (omega arith) (omega (arith, pow-suc 10 (suc k))) in
      rw big (next_digit-IsNumeral (n % 10) n high (omega arith) (omega arith))
]

-- A number below `10 ^ (k + 1)` is written in at most `k + 1` digits.
pub decimal-IsNumeral : (k n : ℕ) → n < 10 ^ suc k → IsNumeral (suc k) (decimal n) n
unfolding decimal
decimal-IsNumeral k n h = decimal_fuel-IsNumeral (suc n) k n (omega arith) h
