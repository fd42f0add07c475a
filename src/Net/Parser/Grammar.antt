-- ===== src/Net/Parser/Grammar.antt =====
-- net/parser.rs: what `read_number` accepts, as a grammar of decimal numbers.
use rust_libstd.Prelude.{
  ℕ, ◌+◌, ◌*◌, ◌≤◌, ◌<◌, ◌≡◌, refl, sym, ◌∙◌, ap, none, some, List, [], ◌∷◌, ◌++◌, length, arith,
  Option-cases, inl, inr,
}
use rust_libstd.Net.Decimal.{Digits, value, IsNumeral}
use rust_libstd.Net.Parser.{parse_digit}
use rust_libstd.Net.Parser.Numbers.{list_number, digit_run, value_from, number_of, Run}

abbrev pub AllBytes : List ℕ → Type 0
AllBytes [] = Unit
AllBytes (c ∷ t) = (c < 256) × AllBytes t

parse_digit_decimal : (d : ℕ) → d < 10 → parse_digit (b'0' + d) 10 ≡ some d
unfolding parse_digit
parse_digit_decimal d h = ground arith

parse_digit_inv : (c : ℕ) {d : ℕ} → c < 256 → parse_digit c 10 ≡ some d → (c ≡ b'0' + d) × (d < 10)
unfolding parse_digit
parse_digit_inv c h e = ground arith

-- No decimal digit follows.
abbrev pub NoDigit : List ℕ → Type 0
NoDigit [] = Unit
NoDigit (c ∷ _) = parse_digit c 10 ≡ none

digit_run-Digits :
    (t ds rest : List ℕ) → Digits t ds → NoDigit rest → digit_run 10 (t ++ rest) ≡ (ds, rest)
digit_run-Digits [] [] [] h stop = refl
digit_run-Digits [] [] (c ∷ rest) h stop = rw stop
digit_run-Digits [] (d ∷ ds) rest h stop = absurd h
digit_run-Digits (c ∷ t) [] rest h stop = absurd h
digit_run-Digits (c ∷ t) (d ∷ ds) rest (e, lt, h) stop =
    rw (e, parse_digit_decimal d lt, digit_run-Digits t ds rest h stop)

value_from-value : (r : ℕ) (ds : List ℕ) → value_from 10 r ds ≡ value r ds
value_from-value r [] = refl
value_from-value r (d ∷ ds) = value_from-value (r * 10 + d) ds

-- A number in decimal is read back, whatever follows that is no digit.
pub list_number_numeral :
    (most upto : ℕ) {t : List ℕ} {n : ℕ} (rest : List ℕ)
    → IsNumeral most t n
    → n < upto
    → NoDigit rest
    → list_number 10 most upto (t ++ rest) ≡ some (n, rest)
list_number_numeral most upto {t} {n} rest h lt stop =
    rw (digit_run-Digits t h.digits rest h.spelled stop, value_from-value 0 h.digits, h.value_is)
      (ground (arith, h.some_digit, h.few))

-- The digits that were read.
record Spells (input : List ℕ) (run : Run) : Type 0 where
  text : List ℕ
  splits : input ≡ text ++ run.1
  spelled : Digits text run.0
  bytes : AllBytes run.1

digit_run-Spells : (input : List ℕ) → AllBytes input → Spells input (digit_run 10 input)
digit_run-Spells [] h = record { text = []; splits = refl; spelled = tt; bytes = tt }
digit_run-Spells (c ∷ cs) (hc, h) = elim (Option-cases (parse_digit c 10)) [
  | inl e ↦ rw e (record { text = []; splits = refl; spelled = tt; bytes = (hc, h) })
  | inr (d, e) ↦
      let (ec, lt) = parse_digit_inv c hc e in
      let s = digit_run-Spells cs h in
      rw e (record {
        text = c ∷ s.text;
        splits = ap (◌∷◌ c) s.splits;
        spelled = (ec, lt, s.spelled);
        bytes = s.bytes;
      })
]

-- What `read_number` takes is a number in decimal.
pub record NumeralRead (most upto : ℕ) (input : List ℕ) (n : ℕ) (rest : List ℕ) : Type 0 where
  pub text : List ℕ
  pub splits : input ≡ text ++ rest
  pub numeral : IsNumeral most text n
  pub below : n < upto
  pub bytes : AllBytes rest

number_of-inv :
    (most upto : ℕ) (run : Run) {n : ℕ} {rest : List ℕ}
    → number_of 10 upto most 0 0 run ≡ some (n, rest)
    → (0 < length run.0)
      × (length run.0 ≤ most)
      × (value_from 10 0 run.0 ≡ n)
      × (run.1 ≡ rest)
      × (n < upto)
number_of-inv most upto run e = ground arith

pub list_number-inv :
    (most upto : ℕ) (input : List ℕ) {n : ℕ} {rest : List ℕ}
    → AllBytes input
    → list_number 10 most upto input ≡ some (n, rest)
    → NumeralRead most upto input n rest
list_number-inv most upto input {n} {rest} h e =
    let s = digit_run-Spells input h in
    let (some_digit, few, v, r, below) = number_of-inv most upto _ e in
    record {
      text = s.text;
      splits = rw (← r) s.splits;
      numeral = record {
        digits = _;
        spelled = s.spelled;
        some_digit = some_digit;
        few = few;
        value_is = sym (value_from-value 0 (digit_run 10 input).0) ∙ v;
      };
      below = below;
      bytes = rw (← r) s.bytes;
    }
