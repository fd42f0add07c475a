-- ===== src/Net/Parser/Ipv4Sound.antt =====
-- net/parser.rs: only dotted decimal texts are parsed as an IPv4 address.
use mathlib.Core.List.{append-nil}
use mathlib.Core.Path.{subst₂}
use mathlib.Core.Option
use rust_libstd.Prelude.{
  ℕ, ◌<◌, ◌≡◌, refl, sym, ◌∙◌, ap, Option, none, some, List, [], ◌∷◌, ◌++◌, arith,
}
use rust_libstd.Net.Ipv4
use rust_libstd.Net.Ipv4.{Ipv4Addr}
use rust_libstd.Net.Parser.{ipv4_from_str}
use rust_libstd.Net.Parser.Grammar.{AllBytes, list_number-inv, NumeralRead}
use rust_libstd.Net.Parser.Numbers.{list_given, list_number}
use rust_libstd.Net.Parser.Ipv4Text.{
  whole, list_octet, list_dot_octet, list_ipv4, IsIpv4Text, read_ipv4_addr-Refines,
  read_till_eof-whole,
}
use rust_libstd.Net.Parser.Refine.{list_bind-inv}

list_octet-inv :
    (input : List ℕ) {n : ℕ} {rest : List ℕ}
    → AllBytes input
    → list_octet input ≡ some (n, rest)
    → NumeralRead 3 0x100 input n rest
list_octet-inv input {n} {rest} h e =
    let (m, mid, read, given) = list_bind-inv (list_number 10 3 0x100) _ input e in
    let r = list_number-inv 3 0x100 input h read in
    let lt : m < 256 = r.below in
    let same_value : m ≡ n = ground arith in
    let same_rest : mid ≡ rest = cc in subst₂ (NumeralRead 3 0x100 input) same_value same_rest r

list_given-inv :
    (c : ℕ) (input : List ℕ) {x : ℕ} {rest : List ℕ}
    → list_given c input ≡ some (x, rest)
    → input ≡ c ∷ rest
list_given-inv c [] e = cc
list_given-inv c (next ∷ tail) e = ground arith

list_dot_octet-inv :
    (input : List ℕ) {n : ℕ} {rest : List ℕ}
    → AllBytes input
    → list_dot_octet input ≡ some (n, rest)
    → (tail : List ℕ) × (input ≡ b'.' ∷ tail) × NumeralRead 3 0x100 tail n rest
list_dot_octet-inv input h e =
    let (dot, tail, dotted, read) = list_bind-inv (list_given b'.') _ input e in
    let splits = list_given-inv b'.' input dotted in
    (tail, splits, list_octet-inv tail (rw splits at h).1 read)

join_splits :
    {s s₁ s₂ s₃ t₁ t₂ t₃ : List ℕ} (x₀ x₁ x₂ x₃ : List ℕ)
    → s ≡ x₀ ++ s₁
    → s₁ ≡ b'.' ∷ t₁
    → t₁ ≡ x₁ ++ s₂
    → s₂ ≡ b'.' ∷ t₂
    → t₂ ≡ x₂ ++ s₃
    → s₃ ≡ b'.' ∷ t₃
    → t₃ ≡ x₃
    → s ≡ x₀ ++ b'.' ∷ (x₁ ++ b'.' ∷ (x₂ ++ b'.' ∷ x₃))
join_splits x₀ x₁ x₂ x₃ a b c d e f g = cc

list_ipv4-inv :
    (s : List ℕ) {a : Ipv4Addr} {rest : List ℕ}
    → AllBytes s
    → list_ipv4 s ≡ some (a, rest)
    → rest ≡ []
    → (os : Ipv4.Octets) × IsIpv4Text s os × (a ≡ Ipv4.from_octets os)
unfolding Ipv4.from_octets
list_ipv4-inv s h e done =
    let (a, s₁, read_a, e₁) = list_bind-inv list_octet _ s e in
    let (b, s₂, read_b, e₂) = list_bind-inv list_dot_octet _ s₁ e₁ in
    let (c, s₃, read_c, e₃) = list_bind-inv list_dot_octet _ s₂ e₂ in
    let (d, s₄, read_d, e₄) = list_bind-inv list_dot_octet _ s₃ e₃ in
    let ra = list_octet-inv s h read_a in
    let (t₁, d₁, rb) = list_dot_octet-inv s₁ ra.bytes read_b in
    let (t₂, d₂, rc) = list_dot_octet-inv s₂ rb.bytes read_c in
    let (t₃, d₃, rd) = list_dot_octet-inv s₃ rc.bytes read_d in
    let end : s₄ ≡ [] = cc in
    let split₃ : t₃ ≡ rd.text = rd.splits ∙ ap (◌++◌ rd.text) end ∙ append-nil rd.text in
    (
      (a, b, c, d),
      record {
        text₀ = ra.text;
        text₁ = rb.text;
        text₂ = rc.text;
        text₃ = rd.text;
        splits =
            join_splits ra.text rb.text rc.text rd.text ra.splits d₁ rb.splits d₂ rc.splits d₃
              split₃;
        numeral₀ = ra.numeral;
        numeral₁ = rb.numeral;
        numeral₂ = rc.numeral;
        numeral₃ = rd.numeral;
        bytes = record { first = ra.below; second = rb.below; third = rc.below; fourth = rd.below };
      },
      cc,
    )

whole-inv : {A : Type 0} (o : Option (A × List ℕ)) {a : A} → whole o ≡ some a → o ≡ some (a, [])
whole-inv none e = cc
whole-inv (some (a, [])) e = ap (λ x. Option.map (λ y. (y, [])) x) e
whole-inv (some (a, c ∷ rest)) e = cc

-- Where a text of bytes parses as an IPv4 address, it is four numbers below 256, each in one to
-- three decimal digits, with dots between them, and the address is that of these numbers.
pub ipv4_from_str_sound :
    (s : List ℕ) {a : Ipv4Addr}
    → AllBytes s
    → ipv4_from_str s ≡ some a
    → (os : Ipv4.Octets) × IsIpv4Text s os × (a ≡ Ipv4.from_octets os)
unfolding ipv4_from_str
ipv4_from_str_sound s h e =
    list_ipv4-inv s h
      (whole-inv (list_ipv4 s) (sym (read_till_eof-whole s read_ipv4_addr-Refines) ∙ e)) refl
