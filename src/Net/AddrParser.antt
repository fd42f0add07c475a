-- ===== src/Net/AddrParser.antt =====
-- net/parser.rs: the readers of IPv6 addresses and of addresses of both kinds.
pub mod Kinds
use Prim.Native.Nat.{bit_or}
use rust_libstd.Prelude.{
  ℕ, zero, suc, ◌+◌, ◌-◌, ◌*◌, ◌^◌, Bool, true, false, leb, ◌==◌, if◌then◌else◌, Option, none, some,
  List, [], ◌∷◌, ◌++◌, length, replicate, get_or,
}
use rust_libstd.Prelude.{Outcome, ok, panic, ◌≢◌, refl}
use rust_libstd.Net.Ipv6Parser.{Tried, read_ipv6_addr_impl}
use rust_libstd.Net.Ipv6Parser.Groups.{read_ipv6_addr_impl_returns}
use rust_libstd.Prelude.Words.{as_u16}
use rust_libstd.Net.Ipv4
use rust_libstd.Net.Ipv4.{Ipv4Addr}
use rust_libstd.Net.Ipv6
use rust_libstd.Net.Ipv6.{Ipv6Addr}
use rust_libstd.Net.Parser.{
  Parser, Reader, ◌>>=◌, after, give, fail, mapped, new_parser, read_atomically, read_till_eof,
  read_or, read_given_char, read_number, read_ipv4_addr,
}

-- The result of code that does not panic.
abbrev pub returned : {A : Type 0} → (o : Outcome A) → o ≢ panic → A
returned (ok a) never = a
returned panic never = absurd (never refl)

unfoldable pub read_ipv6_addr : Reader Ipv6Addr
read_ipv6_addr =
    read_atomically (λ p. returned (read_ipv6_addr_impl p) (read_ipv6_addr_impl_returns p))

-- net/ip.rs
pub data IpAddr : Type 0 where
  v4 : Ipv4Addr → IpAddr
  v6 : Ipv6Addr → IpAddr

unfoldable pub read_ip_addr : Reader IpAddr
read_ip_addr = read_or (mapped v4 read_ipv4_addr ∷ mapped v6 read_ipv6_addr ∷ [])

unfoldable pub ipv6_from_str : List ℕ → Option Ipv6Addr
ipv6_from_str s = (read_till_eof read_ipv6_addr (new_parser s)).0

unfoldable pub ip_from_str : List ℕ → Option IpAddr
ip_from_str s = (read_till_eof read_ip_addr (new_parser s)).0
