-- ===== src/Net/Parser/Refine.antt =====
-- The parser by position refines a parser on what is left of the text.
use mathlib.Core.Path.{subst}
use native.Mathlib.Numerals.{add-one}
use rust_libstd.Prelude.{
  ℕ, zero, suc, ◌≤◌, ◌<◌, ◌≡◌, refl, sym, ◌∙◌, ap, true, false, ◌==◌, Option, none, some, List, [],
  ◌∷◌, length, drop, get_elem?, length-drop, arith, Option-cases, inl, inr,
}
use rust_libstd.Net.Parser.{
  Parser, Reader, after, ◌>>=◌, give, fail, lift, is_eof, commit, read_atomically, read_char,
}

abbrev pub ListReader : Type 0 → Type 0
ListReader A = List ℕ → Option (A × List ℕ)

-- What `p` has not read yet is `rest`.
pub record At (p : Parser) (rest : List ℕ) : Type 0 where
  pub left : drop p.pos p.s ≡ rest
  pub within : p.pos ≤ length p.s

-- Both succeed with one value and one rest, or both fail; the text stays.
abbrev pub Agrees : {A : Type 0} → Parser → Option A × Parser → Option (A × List ℕ) → Type 0
Agrees p (none, q) none = q.s ≡ p.s
Agrees p (some a, q) (some (b, rest)) = (a ≡ b) × At q rest × (q.s ≡ p.s)
Agrees p (none, q) (some _) = ⊥
Agrees p (some a, q) none = ⊥

pub record Refines {A : Type 0} (m : Reader A) (g : ListReader A) : Type 0 where
  pub agrees : (p : Parser) (rest : List ℕ) → At p rest → Agrees p (m p) (g rest)

-- The combinators on lists.
abbrev pub list_after :
    {A B : Type 0} → (A → ListReader B) → Option (A × List ℕ) → Option (B × List ℕ)
list_after f none = none
list_after f (some (a, rest)) = f a rest

abbrev pub list_bind : {A B : Type 0} → ListReader A → (A → ListReader B) → ListReader B
list_bind g f rest = list_after f (g rest)

abbrev pub list_give : {A : Type 0} → A → ListReader A
list_give a rest = some (a, rest)

abbrev pub list_fail : {A : Type 0} → ListReader A
list_fail rest = none

abbrev pub list_char : ListReader ℕ
list_char [] = none
list_char (c ∷ rest) = some (c, rest)

abbrev pub list_lift : {A : Type 0} → Option A → ListReader A
list_lift none rest = none
list_lift (some a) rest = some (a, rest)

pub give-Refines : {A : Type 0} (a : A) → Refines (give a) (list_give a)
give-Refines a = record { agrees = λ p rest h. (refl, h, refl) }

pub fail-Refines : (A : Type 0) → Refines {A = A} fail list_fail
fail-Refines A = record { agrees = λ p rest h. refl }

lift-Agrees :
    {A : Type 0} (o : Option A) (p : Parser) (rest : List ℕ)
    → At p rest
    → Agrees p (lift o p) (list_lift o rest)
lift-Agrees none p rest h = refl
lift-Agrees (some a) p rest h = (refl, h, refl)

pub lift-Refines : {A : Type 0} (o : Option A) → Refines (lift o) (list_lift o)
lift-Refines o = record { agrees = lift-Agrees o }

pub text-Agrees :
    {A : Type 0} (p q : Parser) (r : Option A × Parser) (o : Option (A × List ℕ))
    → q.s ≡ p.s
    → Agrees q r o
    → Agrees p r o
text-Agrees p q (none, t) none s e = e ∙ s
text-Agrees p q (none, t) (some (b, rest)) s e = e
text-Agrees p q (some a, t) none s e = e
text-Agrees p q (some a, t) (some (b, rest)) s (e, at, s') = (e, at, s' ∙ s)

after-Agrees :
    {A B : Type 0} (p : Parser) {f : A → Reader B} {h : A → ListReader B}
    → ((a : A) → Refines (f a) (h a))
    → (r : Option A × Parser) (o : Option (A × List ℕ)) → Agrees p r o
    → Agrees p (after f r) (list_after h o)
after-Agrees p steps (none, q) none e = e
after-Agrees p steps (none, q) (some (b, rest)) e = absurd e
after-Agrees p steps (some a, q) none e = absurd e
after-Agrees p {f} {h} steps (some a, q) (some (b, rest)) (e, at, s) =
    text-Agrees p q _ _ s
      (subst (λ x. Agrees q (f x q) (h b rest)) (sym e) ((steps b).agrees q rest at))

pub bind-Refines :
    {A B : Type 0} {m : Reader A} {g : ListReader A} {f : A → Reader B} {h : A → ListReader B}
    → Refines m g
    → ((a : A) → Refines (f a) (h a))
    → Refines (m >>= f) (list_bind g h)
bind-Refines first steps = record {
  agrees = λ p rest at. after-Agrees p steps _ _ (first.agrees p rest at);
}

drop-suc :
    (s : List ℕ) (i : ℕ) {c : ℕ} {rest : List ℕ}
    → drop i s ≡ c ∷ rest
    → (get_elem? s i ≡ some c) × (drop (suc i) s ≡ rest) × (i < length s)
drop-suc [] zero e = cc
drop-suc [] (suc i) e = cc
drop-suc (x ∷ s) zero e = (cc, cc, omega arith)
drop-suc (x ∷ s) (suc i) e = let (a, b, c) = drop-suc s i e in (a, b, omega arith)

is_eof-At : (p : Parser) → At p [] → is_eof p ≡ true
unfolding is_eof
is_eof-At p h = ground (arith, length-drop p.pos p.s, ap length h.left)

read_char-Agrees :
    (p : Parser) (rest : List ℕ) → At p rest → Agrees p (read_char p) (list_char rest)
unfolding read_char is_eof
read_char-Agrees p [] h = rw (is_eof-At p h) refl
read_char-Agrees p (c ∷ rest) h =
    let (found, left, below) = drop-suc p.s p.pos h.left in
    let more : (p.pos == length p.s) ≡ false = ground arith in
    rw (more, found) (refl, record { left = rw add-one left; within = omega arith }, refl)

pub read_char-Refines : Refines read_char list_char
read_char-Refines = record { agrees = read_char-Agrees }

commit-Agrees :
    {A : Type 0} (p : Parser) (r : Option A × Parser) (o : Option (A × List ℕ))
    → Agrees p r o
    → Agrees p (commit p.pos r) o
commit-Agrees p (none, q) none e = e
commit-Agrees p (none, q) (some (b, rest)) e = e
commit-Agrees p (some a, q) none e = e
commit-Agrees p (some a, q) (some (b, rest)) e = e

pub read_atomically-Refines :
    {A : Type 0} {m : Reader A} {g : ListReader A} → Refines m g → Refines (read_atomically m) g
unfolding read_atomically
read_atomically-Refines h = record {
  agrees = λ p rest at. commit-Agrees p _ _ (h.agrees p rest at);
}

-- A reader that fails inside `read_atomically` leaves the parser where it was.
commit_unmoved :
    {A : Type 0} (p : Parser) (r : Option A × Parser) (o : Option (A × List ℕ))
    → Agrees p r o
    → (commit p.pos r).0 ≡ none
    → (commit p.pos r).1 ≡ p
commit_unmoved p (none, q) none s e = ground arith
commit_unmoved p (none, q) (some _) s e = absurd s
commit_unmoved p (some a, q) o s e = cc

pub read_atomically_unmoved :
    {A : Type 0} {m : Reader A} {g : ListReader A}
    → Refines m g
    → (p : Parser) (rest : List ℕ) → At p rest
    → (read_atomically m p).0 ≡ none
    → (read_atomically m p).1 ≡ p
unfolding read_atomically
read_atomically_unmoved h p rest at = commit_unmoved p _ _ (h.agrees p rest at)

-- What agreement says of a known outcome.
pub Agrees-some :
    {A : Type 0} (p : Parser) (r : Option A × Parser) (b : A) (rest : List ℕ)
    → Agrees p r (some (b, rest))
    → (q : Parser) × (r ≡ (some b, q)) × At q rest × (q.s ≡ p.s)
Agrees-some p (none, q) b rest e = absurd e
Agrees-some p (some a, q) b rest (e, at, s) = (q, ap (λ x. (some x, q)) e, at, s)

pub Agrees-none : {A : Type 0} (p : Parser) (r : Option A × Parser) → Agrees p r none → r.0 ≡ none
Agrees-none p (none, q) e = refl
Agrees-none p (some a, q) e = absurd e

-- A success of two list readers in a row is a success of each.
pub list_bind-inv :
    {A B : Type 0} (g : ListReader A) (f : A → ListReader B) (input : List ℕ) {b : B}
    {rest : List ℕ}
    → list_bind g f input ≡ some (b, rest)
    → (a : A) × (mid : List ℕ) × (g input ≡ some (a, mid)) × (f a mid ≡ some (b, rest))
list_bind-inv g f input e = elim (Option-cases (g input)) [
  | inl none_read ↦ cc (rw none_read at e)
  | inr ((a, mid), read) ↦ (a, mid, read, rw read at e)
]
