-- ===== src/Net/Parser/Numbers.antt =====
-- net/parser.rs: what the readers of characters, digits and numbers accept.
use rust_libstd.Prelude.{
  ℕ, zero, suc, ◌+◌, ◌*◌, ◌%◌, ◌^◌, ◌≤◌, ◌<◌, ◌≡◌, refl, true, false, ◌&&◌, ◌==◌, ltb, leb,
  if◌then◌else◌, Option, none, some, List, [], ◌∷◌, length, arith, Option-cases, lt→ltb, leb→le,
  Bool-cases, inl, inr,
}
use rust_libstd.Net.Parser.{
  Parser, give, fail, read_given_char, parse_digit, read_digit, finish_number, number_loop,
  read_number_impl, read_number,
}
use rust_libstd.Net.Parser.Refine.{
  ListReader, At, Agrees, Refines, list_bind, list_char, list_lift, give-Refines, fail-Refines,
  lift-Refines, bind-Refines, read_char-Refines, read_atomically-Refines, read_atomically_unmoved,
  Agrees-some, Agrees-none, text-Agrees,
}

abbrev pub list_given : ℕ → ListReader ℕ
list_given c [] = none
list_given c (next ∷ rest) = if next == c then some (next, rest) else none

abbrev pub list_digit : ℕ → ListReader ℕ
list_digit radix = list_bind list_char (λ c. list_lift (parse_digit c radix))

-- The values of the longest run of digits in front, and what follows it.
abbrev pub Run : Type 0
Run = List ℕ × List ℕ

abbrev pub push_digit : ℕ → List ℕ → Option ℕ → Run → Run
push_digit c cs none run = ([], c ∷ cs)
push_digit c cs (some d) run = (d ∷ run.0, run.1)

abbrev pub digit_run : ℕ → List ℕ → Run
digit_run radix [] = ([], [])
digit_run radix (c ∷ cs) = push_digit c cs (parse_digit c radix) (digit_run radix cs)

abbrev pub value_from : ℕ → ℕ → List ℕ → ℕ
value_from radix r [] = r
value_from radix r (d ∷ ds) = value_from radix (r * radix + d) ds

abbrev pub number_of : ℕ → ℕ → ℕ → ℕ → ℕ → Run → Option (ℕ × List ℕ)
number_of radix upto left digit_count r run =
    if ltb 0 (digit_count + length run.0)
      && (leb (length run.0) left && ltb (value_from radix r run.0) upto)
    then some (value_from radix r run.0, run.1)
    else none

-- One to `max_digits` digits, all the digits there are, of a value below `upto`.
abbrev pub list_number : ℕ → ℕ → ℕ → ListReader ℕ
list_number radix max_digits upto rest = number_of radix upto max_digits 0 0 (digit_run radix rest)

given-Refines :
    (c next : ℕ)
    → Refines
        (if next == c then give next else fail)
        (λ rest. if next == c then some (next, rest) else none)
given-Refines c next = elim (Bool-cases (next == c)) [
  | inl e ↦ rw e (give-Refines next)
  | inr e ↦ rw e (fail-Refines ℕ)
]

given-Agrees :
    (c : ℕ) (r : Option ℕ × Parser) (p : Parser) (rest : List ℕ)
    → Agrees p r
        (list_bind list_char (λ next rest'. if next == c then some (next, rest') else none) rest)
    → Agrees p r (list_given c rest)
given-Agrees c r p [] h = h
given-Agrees c r p (x ∷ rest) h = h

pub read_given_char-Refines : (c : ℕ) → Refines (read_given_char c) (list_given c)
unfolding read_given_char
read_given_char-Refines c = record {
  agrees = λ p rest at. given-Agrees c _ p rest (
      (read_atomically-Refines (bind-Refines read_char-Refines (given-Refines c))).agrees p rest
        at);
}

pub read_digit-Refines : (radix : ℕ) → Refines (read_digit radix) (list_digit radix)
unfolding read_digit
read_digit-Refines radix =
    read_atomically-Refines
      (bind-Refines read_char-Refines (λ c. lift-Refines (parse_digit c radix)))

read_digit_unmoved :
    (radix : ℕ) (p : Parser) (rest : List ℕ)
    → At p rest
    → (read_digit radix p).0 ≡ none
    → (read_digit radix p).1 ≡ p
unfolding read_digit
read_digit_unmoved radix p rest at =
    read_atomically_unmoved
      (bind-Refines read_char-Refines (λ c. lift-Refines (parse_digit c radix))) p rest at

pub parse_digit-lt : (c radix : ℕ) {d : ℕ} → radix ≤ 16 → parse_digit c radix ≡ some d → d < 16
unfolding parse_digit
parse_digit-lt c radix h e = ground arith

value_from-le : (radix r : ℕ) (ds : List ℕ) → 0 < radix → r ≤ value_from radix r ds
value_from-le radix r [] h = omega arith
value_from-le radix r (d ∷ ds) h =
    let grows : r ≤ r * radix = grind arith in
    omega (arith, value_from-le radix (r * radix + d) ds h)

read_digit-none :
    (radix : ℕ) (p : Parser) (rest : List ℕ)
    → At p rest
    → list_digit radix rest ≡ none
    → read_digit radix p ≡ (none, p)
read_digit-none radix p rest at e =
    let same = rw e at ((read_digit-Refines radix).agrees p rest at) in
    let failed = Agrees-none p _ same in
    ground (arith, failed, read_digit_unmoved radix p rest at failed)

read_digit-some :
    (radix : ℕ) (p : Parser) (rest : List ℕ) (d : ℕ) (cs : List ℕ)
    → At p rest
    → list_digit radix rest ≡ some (d, cs)
    → (q : Parser) × (read_digit radix p ≡ (some d, q)) × At q cs × (q.s ≡ p.s)
read_digit-some radix p rest d cs at e =
    Agrees-some p _ d cs (rw e at ((read_digit-Refines radix).agrees p rest at))

finish-Agrees :
    (radix upto left digit_count r : ℕ) (p : Parser) (rest : List ℕ)
    → At p rest
    → r < upto
    → Agrees p (finish_number digit_count r p) (number_of radix upto left digit_count r ([], rest))
finish-Agrees radix upto left zero r p rest at h = refl
finish-Agrees radix upto left (suc n) r p rest at h =
    let some_digit : ltb 0 (suc n + 0) ≡ true = ground arith in
    let few : leb 0 left ≡ true = ground arith in
    let nonzero : (suc n == 0) ≡ false = ground arith in
    rw (nonzero, some_digit, few, lt→ltb r upto h) (refl, at, refl)

module _ (radix upto : ℕ) (pos : 0 < radix) (small : radix ≤ 16) (fits : upto ≤ 0x10000) where
  too_many : (k r d : ℕ) (run : Run) → number_of radix upto 0 k r (d ∷ run.0, run.1) ≡ none
  too_many k r d run = ground arith

  too_big :
      (left k r d : ℕ) (run : Run)
      → upto ≤ r * radix + d
      → number_of radix upto (suc left) k r (d ∷ run.0, run.1) ≡ none
  too_big left k r d run h = ground (arith, value_from-le radix (r * radix + d) run.0 pos)

  one_more :
      (left k r d : ℕ) (run : Run)
      → number_of radix upto (suc left) k r (d ∷ run.0, run.1)
        ≡ number_of radix upto left (k + 1) (r * radix + d) run
  one_more left k r d run = ground arith

  no_wrap : (r d : ℕ) → r < upto → d < 16 → (r * radix % 2 ^ 32 + d) % 2 ^ 32 ≡ r * radix + d
  no_wrap r d h hd = let bound : r * radix ≤ r * 16 = grind arith in omega arith

  number_loop-Agrees :
      (left digit_count r : ℕ) (p : Parser) (rest : List ℕ)
      → At p rest
      → r < upto
      → Agrees p
          (number_loop radix upto left digit_count r p)
          (number_of radix upto left digit_count r (digit_run radix rest))
  unfolding number_loop
  number_loop-Agrees zero k r p [] at h =
      rw (read_digit-none radix p [] at refl) (finish-Agrees radix upto 0 k r p [] at h)
  number_loop-Agrees zero k r p (c ∷ cs) at h = elim (Option-cases (parse_digit c radix)) [
    | inl e ↦
        let stops = read_digit-none radix p (c ∷ cs) at (rw e refl) in
        rw (stops, e) (finish-Agrees radix upto 0 k r p (c ∷ cs) at h)
    | inr (d, e) ↦
        let (q, reads, at', s) = read_digit-some radix p (c ∷ cs) d cs at (rw e refl) in
        rw (reads, e, too_many k r d (digit_run radix cs)) s
  ]
  number_loop-Agrees (suc left) k r p [] at h =
      rw (read_digit-none radix p [] at refl) (finish-Agrees radix upto (suc left) k r p [] at h)
  number_loop-Agrees (suc left) k r p (c ∷ cs) at h = elim (Option-cases (parse_digit c radix)) [
    | inl e ↦
        let stops = read_digit-none radix p (c ∷ cs) at (rw e refl) in
        rw (stops, e) (finish-Agrees radix upto (suc left) k r p (c ∷ cs) at h)
    | inr (d, e) ↦
        let (q, reads, at', s) = read_digit-some radix p (c ∷ cs) d cs at (rw e refl) in
        let exact = no_wrap r d h (parse_digit-lt c radix small e) in
        elim (Bool-cases (leb upto (r * radix + d))) [
          | inl big ↦
              rw (reads, e, exact, big)
                (rw (too_big left k r d (digit_run radix cs) (leb→le _ _ big)) s)
          | inr ok ↦
              let below : r * radix + d < upto = ground arith in
              rw (reads, e, exact, ok)
                (rw (one_more left k r d (digit_run radix cs)) (
                  text-Agrees p q _ _ s
                    (number_loop-Agrees left (k + 1) (r * radix + d) q cs at' below)))
        ]
  ]

  pub read_number-Refines :
      (max_digits : ℕ)
      → 0 < upto
      → Refines (read_number radix max_digits upto) (list_number radix max_digits upto)
  unfolding read_number read_number_impl
  read_number-Refines max_digits some_value =
      read_atomically-Refines
        (record { agrees = λ p rest at. number_loop-Agrees max_digits 0 0 p rest at some_value })
