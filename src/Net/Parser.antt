-- ===== src/Net/Parser.antt =====
-- net/parser.rs: the recursive-descent parser of addresses. A closure over `&mut Parser` is a function
-- from a parser to its result and the parser that it leaves.
pub mod Refine
pub mod Numbers
pub mod Grammar
pub mod Ipv4Sound
pub mod Ipv4Text
use Prim.Native.Nat.{bit_or}
use mathlib.Core.Option
use rust_libstd.Prelude.{
  ℕ, zero, suc, ◌+◌, ◌-◌, ◌*◌, ◌^◌, Bool, true, false, not, ◌&&◌, ◌||◌, ltb, leb, ◌==◌,
  if◌then◌else◌, Option, none, some, List, [], ◌∷◌, length, get_elem?,
}
use rust_libstd.Prelude.Words.{as_u8, as_u16, add32, mul32}
use rust_libstd.Net.Ipv4
use rust_libstd.Net.Ipv4.{Ipv4Addr}

pub record Parser : Type 0 where
  pub s : List ℕ
  pub pos : ℕ

abbrev pub Reader : Type 0 → Type 0
Reader A = Parser → Option A × Parser

-- A failure ends the reader in the state that it reached.
infixl 5 ◌>>=◌
abbrev pub after : {A B : Type 0} → (A → Reader B) → Option A × Parser → Option B × Parser
after f (none, p) = (none, p)
after f (some a, p) = f a p

abbrev pub ◌>>=◌ : {A B : Type 0} → Reader A → (A → Reader B) → Reader B
◌>>=◌ m f p = after f (m p)

abbrev pub give : {A : Type 0} → A → Reader A
give a p = (some a, p)

abbrev pub fail : {A : Type 0} → Reader A
fail p = (none, p)

-- `Option::map` on the result of a reader.
abbrev pub mapped : {A B : Type 0} → (A → B) → Reader A → Reader B
mapped f m = do a ← m; give (f a)

unfoldable pub new_parser : List ℕ → Parser
new_parser s = record { s = s; pos = 0 }

unfoldable pub is_eof : Parser → Bool
is_eof p = p.pos == length p.s

abbrev pub commit : {A : Type 0} → ℕ → Option A × Parser → Option A × Parser
commit pos (none, p) = (none, record p { pos = pos })
commit pos (some a, p) = (some a, p)

unfoldable pub read_atomically : {A : Type 0} → Reader A → Reader A
read_atomically cb p = commit p.pos (cb p)

abbrev pub keep_at_eof : {A : Type 0} → Option A × Parser → Option A × Parser
keep_at_eof (none, p) = (none, p)
keep_at_eof (some x, p) = if is_eof p then (some x, p) else (none, p)

unfoldable pub read_till_eof : {A : Type 0} → Reader A → Reader A
read_till_eof cb = read_atomically (λ p. keep_at_eof (cb p))

abbrev pub or_else : {A : Type 0} → Reader A → Option A × Parser → Option A × Parser
or_else next (none, p) = next p
or_else next (some a, p) = (some a, p)

unfoldable pub read_or : {A : Type 0} → List (Reader A) → Reader A
read_or [] p = (none, p)
read_or (pf ∷ parsers) p = or_else (read_or parsers) (read_atomically pf p)

unfoldable pub read_seq_3 : {A B C : Type 0} → Reader A → Reader B → Reader C → Reader (A × B × C)
read_seq_3 pa pb pc = read_atomically (do a ← pa; b ← pb; c ← pc; give (a, b, c))

-- Past the end, which no reader gets to, the source would panic.
unfoldable pub read_char : Reader ℕ
read_char p = if is_eof p then (none, p) else (get_elem? p.s p.pos, record p { pos = p.pos + 1 })

unfoldable pub read_given_char : ℕ → Reader ℕ
read_given_char c = read_atomically (do next ← read_char; if next == c then give next else fail)

unfoldable pub parse_digit : ℕ → ℕ → Option ℕ
parse_digit ch radix =
    let c = as_u8 ch in
    if leb b'0' c && leb c b'9'
    then some (c - b'0')
    else if ltb 10 radix && (leb b'a' c && ltb c (b'a' + (radix - 10)))
    then some (c - b'a' + 10)
    else if ltb 10 radix && (leb b'A' c && ltb c (b'A' + (radix - 10)))
    then some (c - b'A' + 10)
    else none

abbrev pub lift : {A : Type 0} → Option A → Reader A
lift o p = (o, p)

unfoldable pub read_digit : ℕ → Reader ℕ
read_digit radix = read_atomically (do c ← read_char; lift (parse_digit c radix))

abbrev pub on_digit : (ℕ → Reader ℕ) → Reader ℕ → Option ℕ × Parser → Option ℕ × Parser
on_digit more stop (none, p) = stop p
on_digit more stop (some d, p) = more d p

abbrev pub finish_number : ℕ → ℕ → Reader ℕ
finish_number digit_count r = if digit_count == 0 then fail else give r

-- The loop of `read_number_impl`. `left` is `max_digits - digit_count`, so the digit that makes
-- `digit_count` exceed `max_digits` is the one that is read at `left = 0`.
unfoldable pub number_loop : ℕ → ℕ → ℕ → ℕ → ℕ → Reader ℕ
number_loop radix upto zero digit_count r p =
    on_digit (λ d. fail) (finish_number digit_count r) (read_digit radix p)
number_loop radix upto (suc left) digit_count r p =
    on_digit
      (λ d.
        let r' = add32 (mul32 r radix) d in
        let rest = number_loop radix upto left (digit_count + 1) r' in
        if leb upto r' then fail else rest)
      (finish_number digit_count r) (read_digit radix p)

unfoldable pub read_number_impl : ℕ → ℕ → ℕ → Reader ℕ
read_number_impl radix max_digits upto = number_loop radix upto max_digits 0 0

unfoldable pub read_number : ℕ → ℕ → ℕ → Reader ℕ
read_number radix max_digits upto = read_atomically (read_number_impl radix max_digits upto)

-- One round of the loop of `read_ipv4_addr_impl`: the dot, but before the first octet, and an octet.
unfoldable pub read_octet : ℕ → Reader ℕ
read_octet i =
    if i == 0
    then mapped as_u8 (read_number 10 3 0x100)
    else do dot ← read_given_char b'.'; mapped as_u8 (read_number 10 3 0x100)

-- The four rounds.
unfoldable pub read_ipv4_addr_impl : Reader Ipv4Addr
read_ipv4_addr_impl = do
  a ← read_octet 0
  b ← read_octet 1
  c ← read_octet 2
  d ← read_octet 3
  give (Ipv4.new a b c d)

unfoldable pub read_ipv4_addr : Reader Ipv4Addr
read_ipv4_addr = read_atomically read_ipv4_addr_impl

-- `FromStr for Ipv4Addr`; `none` is `Err(AddrParseError(()))`.
unfoldable pub ipv4_from_str : List ℕ → Option Ipv4Addr
ipv4_from_str s = (read_till_eof read_ipv4_addr (new_parser s)).0
