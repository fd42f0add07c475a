-- ===== src/Net/AddrParser/Kinds.antt =====
-- net/parser.rs: which texts `IpAddr` takes for an IPv4 address.
use rust_libstd.Prelude.{ℕ, ◌≡◌, ◌↔◌, ◌≢◌, Option, none, some, List, [], Bool-cases, inl, inr}
use rust_libstd.Net.Ipv4.{Ipv4Addr}
use rust_libstd.Net.Ipv6.{Ipv6Addr}
use rust_libstd.Net.Parser.{
  Parser, give, after, new_parser, is_eof, commit, read_atomically, keep_at_eof, read_till_eof,
  or_else, read_or, read_ipv4_addr, ipv4_from_str,
}
use rust_libstd.Net.AddrParser.{IpAddr, v4, v6, read_ip_addr, ip_from_str}

-- The IPv4 reader's result, before and after it is made an `IpAddr`.
at_eof :
    {A : Type 0} (n : ℕ) (r : Option A × Parser) (a : A)
    → (commit n (keep_at_eof r)).0 ≡ some a
    → r.0 ≡ some a
at_eof n (none, p) a e = cc
at_eof n (some b, p) a e = elim (Bool-cases (is_eof p)) [
  | inl done ↦ rw done at e
  | inr more ↦ cc (rw more at e)
]

same_kind :
    (n : ℕ) (other : Parser → Option IpAddr × Parser) (r : Option Ipv4Addr × Parser) (a : Ipv4Addr)
    → ((p : Parser) → (other p).0 ≢ some (v4 a))
    → ((commit n (keep_at_eof (or_else other (commit n (after (λ b. give (v4 b)) r))))).0
        ≡ some (v4 a))
      ↔ ((commit n (keep_at_eof r)).0 ≡ some a)
same_kind n other (none, p) a never =
    (λ e. absurd (never (record p { pos = n }) (at_eof n _ (v4 a) e)), λ e. cc)
same_kind n other (some b, p) a never = elim (Bool-cases (is_eof p)) [
  | inl done ↦ rw done (λ e. cc, λ e. cc)
  | inr more ↦ rw more (λ e. cc, λ e. cc)
]

never_v4 :
    (n : ℕ) (r : Option Ipv6Addr × Parser) (a : Ipv4Addr)
    → (or_else (read_or []) (commit n (after (λ b. give (v6 b)) r))).0 ≢ some (v4 a)
unfolding read_or
never_v4 n (none, p) a = λ e. cc
never_v4 n (some b, p) a = λ e. cc

-- A text parses as the IpAddr of an IPv4 address exactly when it parses as that Ipv4Addr.
ip_from_str-ipv4_from_str :
    (s : List ℕ) (a : Ipv4Addr) → (ip_from_str s ≡ some (v4 a)) ↔ (ipv4_from_str s ≡ some a)
unfolding ip_from_str ipv4_from_str read_till_eof read_atomically read_ip_addr read_or
ip_from_str-ipv4_from_str s a =
    same_kind (new_parser s).pos _ (read_ipv4_addr (new_parser s)) a (λ p. never_v4 p.pos _ a)
