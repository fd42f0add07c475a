-- ===== src/Net/Parser/Ipv4Text.antt =====
-- net/parser.rs: dotted decimal texts are parsed as an IPv4 address.
use mathlib.Core.List.{append-nil, append_assoc}
use rust_libstd.Net.Ipv4.Octets.{AreOctets}
use rust_libstd.Prelude.{
  ℕ, suc, ◌%◌, ◌^◌, ◌<◌, ◌≡◌, refl, sym, ◌∙◌, ap, false, ◌==◌, Option, none, some, List, [], ◌∷◌,
  ◌++◌, length, length-drop, arith,
}
use rust_libstd.Prelude.Words.{as_u8}
use rust_libstd.Net.Decimal.{IsNumeral}
use rust_libstd.Net.Ipv4
use rust_libstd.Net.Ipv4.{Ipv4Addr}
use rust_libstd.Net.Parser.{
  Parser, Reader, is_eof, read_octet, read_ipv4_addr, read_ipv4_addr_impl, read_till_eof,
  new_parser, keep_at_eof, commit, ipv4_from_str, read_atomically, parse_digit,
}
use rust_libstd.Net.Parser.Grammar.{NoDigit, list_number_numeral}
use rust_libstd.Net.Parser.Numbers.{
  list_given, list_number, read_given_char-Refines, read_number-Refines,
}
use rust_libstd.Net.Parser.Refine.{
  ListReader, At, Agrees, Refines, list_bind, list_give, give-Refines, bind-Refines,
  read_atomically-Refines,
}

-- A reader that must reach the end of the text.
abbrev pub whole : {A : Type 0} → Option (A × List ℕ) → Option A
whole none = none
whole (some (a, [])) = some a
whole (some (a, _ ∷ _)) = none

is_eof-left : (p : Parser) (rest : List ℕ) → At p rest → is_eof p ≡ (length rest == 0)
unfolding is_eof
is_eof-left p rest h = ground (arith, length-drop p.pos p.s, ap length h.left)

whole-Agrees :
    {A : Type 0} (p : Parser) (r : Option A × Parser) (o : Option (A × List ℕ))
    → Agrees p r o
    → (commit p.pos (keep_at_eof r)).0 ≡ whole o
whole-Agrees p (none, q) none h = refl
whole-Agrees p (none, q) (some (b, rest)) h = absurd h
whole-Agrees p (some a, q) none h = absurd h
whole-Agrees p (some a, q) (some (b, [])) (e, at, s) = rw (is_eof-left q [] at) (ap some e)
whole-Agrees p (some a, q) (some (b, c ∷ rest)) (e, at, s) =
    let more : (length (c ∷ rest) == 0) ≡ false = ground arith in
    rw (is_eof-left q (c ∷ rest) at, more)

-- `read_till_eof` on a whole text.
pub read_till_eof-whole :
    {A : Type 0} {m : Reader A} {g : ListReader A} (s : List ℕ)
    → Refines m g
    → (read_till_eof m (new_parser s)).0 ≡ whole (g s)
unfolding read_till_eof new_parser read_atomically
read_till_eof-whole s h =
    whole-Agrees _ _ _ (h.agrees _ s (record { left = refl; within = omega arith }))

abbrev pub list_octet : ListReader ℕ
list_octet = list_bind (list_number 10 3 0x100) (λ n. list_give (as_u8 n))

abbrev pub list_dot_octet : ListReader ℕ
list_dot_octet = list_bind (list_given b'.') (λ dot. list_octet)

abbrev pub list_ipv4 : ListReader Ipv4Addr
list_ipv4 = list_bind list_octet (λ a. list_bind list_dot_octet (λ b.
    list_bind list_dot_octet (λ c. list_bind list_dot_octet (λ d. list_give (Ipv4.new a b c d)))))

first_octet-Refines : Refines (read_octet 0) list_octet
unfolding read_octet
first_octet-Refines =
    bind-Refines
      (read_number-Refines 10 0x100 (omega arith) (omega arith) (omega arith) 3 (omega arith))
      (λ n. give-Refines (as_u8 n))

next_octet-Refines : (i : ℕ) → Refines (read_octet (suc i)) list_dot_octet
unfolding read_octet
next_octet-Refines i =
    let later : (suc i == 0) ≡ false = ground arith in
    rw later (
      bind-Refines (read_given_char-Refines b'.')
        (λ dot. (unfold read_octet in first_octet-Refines)))

-- The IPv4 reader that moves a position over the text refines a reader of lists: at every position
-- within the text it succeeds exactly when the list reader does on what is left, with the same
-- address and the same rest, and it keeps the text.
pub read_ipv4_addr-Refines : Refines read_ipv4_addr list_ipv4
unfolding read_ipv4_addr read_ipv4_addr_impl
read_ipv4_addr-Refines = read_atomically-Refines (
    bind-Refines first_octet-Refines (λ a. bind-Refines (next_octet-Refines 0) (λ b.
      bind-Refines (next_octet-Refines 1)
        (λ c. bind-Refines (next_octet-Refines 2) (λ d. give-Refines (Ipv4.new a b c d))))))

-- Four numbers below 256 in one to three decimal digits, with dots between them.
pub record IsIpv4Text (s : List ℕ) (os : Ipv4.Octets) : Type 0 where
  pub text₀ : List ℕ
  pub text₁ : List ℕ
  pub text₂ : List ℕ
  pub text₃ : List ℕ
  pub splits : s ≡ text₀ ++ b'.' ∷ (text₁ ++ b'.' ∷ (text₂ ++ b'.' ∷ text₃))
  pub numeral₀ : IsNumeral 3 text₀ os.0
  pub numeral₁ : IsNumeral 3 text₁ os.1
  pub numeral₂ : IsNumeral 3 text₂ os.2
  pub numeral₃ : IsNumeral 3 text₃ os.3
  pub bytes : AreOctets os

list_octet_numeral :
    {t : List ℕ} {n : ℕ} (rest : List ℕ)
    → IsNumeral 3 t n
    → n < 256
    → NoDigit rest
    → list_octet (t ++ rest) ≡ some (n, rest)
list_octet_numeral {n = n} rest h lt stop =
    let same : n % 2 ^ 8 ≡ n = omega arith in rw (list_number_numeral 3 0x100 rest h lt stop, same)

list_dot_octet_numeral :
    {t : List ℕ} {n : ℕ} (rest : List ℕ)
    → IsNumeral 3 t n
    → n < 256
    → NoDigit rest
    → list_dot_octet (b'.' ∷ (t ++ rest)) ≡ some (n, rest)
list_dot_octet_numeral rest h lt stop = list_octet_numeral rest h lt stop

dot_NoDigit : (rest : List ℕ) → NoDigit (b'.' ∷ rest)
dot_NoDigit rest = unfold parse_digit in refl

-- Such a text is read as an address, whatever follows it that is no digit.
pub list_ipv4_text :
    (s rest : List ℕ) (os : Ipv4.Octets)
    → IsIpv4Text s os
    → NoDigit rest
    → list_ipv4 (s ++ rest) ≡ some (Ipv4.from_octets os, rest)
unfolding Ipv4.from_octets
list_ipv4_text s rest os h stop =
    let b = h.bytes in
    let r₃ = h.text₃ ++ rest in
    let r₂ = h.text₂ ++ b'.' ∷ r₃ in
    let r₁ = h.text₁ ++ b'.' ∷ r₂ in
    let joined : s ++ rest ≡ h.text₀ ++ b'.' ∷ r₁ = rw h.splits (simp append_assoc) in
    rw (
      joined,
      list_octet_numeral (b'.' ∷ r₁) h.numeral₀ b.first (dot_NoDigit r₁),
      list_dot_octet_numeral (b'.' ∷ r₂) h.numeral₁ b.second (dot_NoDigit r₂),
      list_dot_octet_numeral (b'.' ∷ r₃) h.numeral₂ b.third (dot_NoDigit r₃),
      list_dot_octet_numeral rest h.numeral₃ b.fourth stop,
    )

-- Every text of four numbers below 256, each in one to three decimal digits, with dots between
-- them, parses as the IPv4 address of these numbers.
pub ipv4_from_str_complete :
    (s : List ℕ) (os : Ipv4.Octets) → IsIpv4Text s os → ipv4_from_str s ≡ some (Ipv4.from_octets os)
unfolding ipv4_from_str
ipv4_from_str_complete s os h =
    read_till_eof-whole s read_ipv4_addr-Refines
    ∙ ap whole (ap list_ipv4 (sym (append-nil s)) ∙ list_ipv4_text s [] os h tt)
