-- ===== src/Net/Ipv6Parser.antt =====
-- net/parser.rs: the reader of IPv6 addresses, up to its assertion.
pub mod Groups
use Prim.Native.Nat.{bit_or}
use rust_libstd.Prelude.{
  ℕ, zero, suc, ◌+◌, ◌-◌, ◌*◌, ◌^◌, Bool, true, false, leb, ◌==◌, if◌then◌else◌, Option, none, some,
  List, [], ◌∷◌, ◌++◌, length, replicate, get_or,
}
use rust_libstd.Prelude.{Outcome, ok, panic}
use rust_libstd.Prelude.Words.{as_u16}
use rust_libstd.Net.Ipv4
use rust_libstd.Net.Ipv4.{Ipv4Addr}
use rust_libstd.Net.Ipv6
use rust_libstd.Net.Ipv6.{Ipv6Addr}
use rust_libstd.Net.Parser.{
  Parser, Reader, ◌>>=◌, after, give, fail, mapped, new_parser, read_atomically, read_till_eof,
  read_or, read_given_char, read_number, read_ipv4_addr,
}

-- The colon, but before the first group, and what follows it.
abbrev pub led : {A : Type 0} → ℕ → Reader A → Reader A
led i m = if i == 0 then m else (do colon ← read_given_char b':'; m)

-- The two groups that an IPv4 address stands for.
abbrev pub ipv4_groups : ℕ × ℕ × ℕ × ℕ → List ℕ
ipv4_groups (a, b, c, d) = bit_or (as_u16 (a * 2 ^ 8)) b ∷ bit_or (as_u16 (c * 2 ^ 8)) d ∷ []

-- The groups that were read, in place of the array and its length, and whether they end in an
-- IPv4 address.
abbrev pub Groups : Type 0
Groups = (List ℕ × Bool) × Parser

abbrev pub on_group : (Parser → Groups) → Option ℕ × Parser → Groups
on_group rest (none, p) = (([], false), p)
on_group rest (some g, p) = let ((gs, ipv4), q) = rest p in ((g ∷ gs, ipv4), q)

abbrev pub on_ipv4 : (Parser → Groups) → Option Ipv4Addr × Parser → Groups
on_ipv4 rest (none, p) = rest p
on_ipv4 rest (some v4_addr, p) = ((ipv4_groups (Ipv4.octets v4_addr), true), p)

abbrev pub hex_group : (Parser → Groups) → ℕ → Parser → Groups
hex_group rest i p =
    on_group rest (read_atomically (led i (mapped as_u16 (read_number 16 4 0x10000))) p)

-- The loop of `read_groups` at `i`, with `left` rounds to go: `i < limit - 1` where one more
-- follows.
unfoldable pub group_loop : ℕ → ℕ → Parser → Groups
group_loop zero i p = (([], false), p)
group_loop (suc left) i p =
    let rest = group_loop left (i + 1) in
    let dotted = on_ipv4 (hex_group rest i) (read_atomically (led i read_ipv4_addr) p) in
    if leb 1 left then dotted else hex_group rest i p

abbrev pub read_groups : ℕ → Parser → Groups
read_groups limit = group_loop limit 0

-- The eight groups; `Ipv6Addr::new` takes them one by one.
abbrev pub of_groups : List ℕ → Ipv6Addr
of_groups gs =
    Ipv6.new (get_or gs 0 0) (get_or gs 1 0) (get_or gs 2 0) (get_or gs 3 0) (get_or gs 4 0)
      (get_or gs 5 0) (get_or gs 6 0) (get_or gs 7 0)

-- The assertion, and the two copies into the array of zeros.
unfoldable pub ipv6_addr_from_head_tail : List ℕ → List ℕ → Outcome Ipv6Addr
ipv6_addr_from_head_tail head tail =
    if leb (length head + length tail) 8
    then ok (of_groups (head ++ replicate (8 - length head - length tail) 0 ++ tail))
    else panic

-- A reader whose code may panic.
abbrev pub Tried : Type 0
Tried = Outcome (Option Ipv6Addr × Parser)

abbrev pub found_by : Parser → Outcome Ipv6Addr → Tried
found_by p (ok addr) = ok (some addr, p)
found_by p panic = panic

abbrev pub with_tail : List ℕ → Groups → Tried
with_tail head ((tail, _), p) = found_by p (ipv6_addr_from_head_tail head tail)

abbrev pub read_tail : List ℕ → Parser → Tried
read_tail head p = with_tail head (read_groups (8 - length head) p)

-- The two colons, and the groups behind them.
abbrev pub second_colon : List ℕ → Option ℕ × Parser → Tried
second_colon head (none, p) = ok (none, p)
second_colon head (some c, p) = read_tail head p

abbrev pub first_colon : List ℕ → Option ℕ × Parser → Tried
first_colon head (none, p) = ok (none, p)
first_colon head (some c, p) = second_colon head (read_given_char b':' p)

abbrev pub read_gap : List ℕ → Parser → Tried
read_gap head p = first_colon head (read_given_char b':' p)

abbrev pub with_head : Groups → Tried
with_head ((head, head_ipv4), p) =
    let gap = read_gap head p in
    if length head == 8
    then ok (some (of_groups head), p)
    else if head_ipv4
    then ok (none, p)
    else gap

unfoldable pub read_ipv6_addr_impl : Parser → Tried
read_ipv6_addr_impl p = with_head (read_groups 8 p)
