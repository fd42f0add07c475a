-- ===== src/Net/Ipv6.antt =====
-- net/ip.rs: `Ipv6Addr`. The arrays `[u8; 16]` and `[u16; 8]` are lists.
pub mod Segments
use Prim.Native.Nat.{bit_and, bit_or}
use rust_libstd.Prelude.{
  ℕ, ◌*◌, ◌/◌, ◌^◌, Bool, true, false, not, ◌&&◌, ◌||◌, ◌==◌, if◌then◌else◌, Option, none, some,
  List, [], ◌∷◌, get_or,
}
use rust_libstd.Prelude.Words.{as_u8, as_u16}
use rust_libstd.Net.Ipv4
use rust_libstd.Net.Ipv4.{Ipv4Addr}

pub record Ipv6Addr : Type 0 where
  pub s6_addr : List ℕ

unfoldable pub new : ℕ → ℕ → ℕ → ℕ → ℕ → ℕ → ℕ → ℕ → Ipv6Addr
new a b c d e f g h = record {
  s6_addr =
      as_u8 (a / 2 ^ 8)
      ∷ as_u8 a
      ∷ as_u8 (b / 2 ^ 8)
      ∷ as_u8 b
      ∷ as_u8 (c / 2 ^ 8)
      ∷ as_u8 c
      ∷ as_u8 (d / 2 ^ 8)
      ∷ as_u8 d
      ∷ as_u8 (e / 2 ^ 8)
      ∷ as_u8 e
      ∷ as_u8 (f / 2 ^ 8)
      ∷ as_u8 f
      ∷ as_u8 (g / 2 ^ 8)
      ∷ as_u8 g
      ∷ as_u8 (h / 2 ^ 8)
      ∷ as_u8 h
      ∷ [];
}

-- `(arr[2 * i] as u16) << 8 | (arr[2 * i + 1] as u16)`, for each `i`.
unfoldable pub pairs : List ℕ → List ℕ
pairs [] = []
pairs (hi ∷ []) = []
pairs (hi ∷ lo ∷ arr) = bit_or (as_u16 (hi * 2 ^ 8)) lo ∷ pairs arr

unfoldable pub segments : Ipv6Addr → List ℕ
unfolding pairs
segments self = pairs self.s6_addr

unfoldable pub octets : Ipv6Addr → List ℕ
octets self = self.s6_addr

-- Equality of arrays.
unfoldable pub equal : List ℕ → List ℕ → Bool
equal [] [] = true
equal (x ∷ xs) (y ∷ ys) = x == y && equal xs ys
equal _ _ = false

unfoldable pub localhost : Ipv6Addr
localhost = new 0 0 0 0 0 0 0 1

unfoldable pub unspecified : Ipv6Addr
unspecified = new 0 0 0 0 0 0 0 0

unfoldable pub is_unspecified : Ipv6Addr → Bool
unfolding equal
is_unspecified self = equal (segments self) (0 ∷ 0 ∷ 0 ∷ 0 ∷ 0 ∷ 0 ∷ 0 ∷ 0 ∷ [])

unfoldable pub is_loopback : Ipv6Addr → Bool
unfolding equal
is_loopback self = equal (segments self) (0 ∷ 0 ∷ 0 ∷ 0 ∷ 0 ∷ 0 ∷ 0 ∷ 1 ∷ [])

-- `self.segments()[i]`; a well-formed address has eight segments.
abbrev pub segment : Ipv6Addr → ℕ → ℕ
segment self i = get_or (segments self) i 0

unfoldable pub is_unique_local : Ipv6Addr → Bool
is_unique_local self = bit_and (segment self 0) 0xfe00 == 0xfc00

unfoldable pub is_unicast_link_local : Ipv6Addr → Bool
is_unicast_link_local self = bit_and (segment self 0) 0xffc0 == 0xfe80

unfoldable pub is_unicast_site_local : Ipv6Addr → Bool
is_unicast_site_local self = bit_and (segment self 0) 0xffc0 == 0xfec0

unfoldable pub is_documentation : Ipv6Addr → Bool
is_documentation self = segment self 0 == 0x2001 && segment self 1 == 0xdb8

unfoldable pub is_multicast : Ipv6Addr → Bool
is_multicast self = bit_and (segment self 0) 0xff00 == 0xff00

unfoldable pub is_unicast_global : Ipv6Addr → Bool
is_unicast_global self =
    not (is_multicast self)
    && (not (is_loopback self)
        && (not (is_unicast_link_local self)
            && (not (is_unicast_site_local self)
                && (not (is_unique_local self)
                    && (not (is_unspecified self) && not (is_documentation self))))))

pub data Ipv6MulticastScope : Type 0 where
  interface_local link_local realm_local admin_local : Ipv6MulticastScope
  site_local organization_local global : Ipv6MulticastScope

scope_of : ℕ → Option Ipv6MulticastScope
scope_of n =
    if n == 1
    then some interface_local
    else if n == 2
    then some link_local
    else if n == 3
    then some realm_local
    else if n == 4
    then some admin_local
    else if n == 5
    then some site_local
    else if n == 8
    then some organization_local
    else if n == 14
    then some global
    else none

unfoldable pub multicast_scope : Ipv6Addr → Option Ipv6MulticastScope
unfolding scope_of
multicast_scope self =
    if is_multicast self then scope_of (bit_and (segment self 0) 0x000f) else none

global_in : Option Ipv6MulticastScope → Bool → Bool
global_in (some global) unicast = true
global_in none unicast = unicast
global_in _ unicast = false

unfoldable pub is_global : Ipv6Addr → Bool
unfolding global_in
is_global self = global_in (multicast_scope self) (is_unicast_global self)

-- The arms of the `match` on the segments.
ipv4_in : List ℕ → Option Ipv4Addr
ipv4_in (a ∷ b ∷ c ∷ d ∷ e ∷ f ∷ g ∷ h ∷ []) =
    if equal (a ∷ b ∷ c ∷ d ∷ e ∷ []) (0 ∷ 0 ∷ 0 ∷ 0 ∷ 0 ∷ []) && (f == 0 || f == 0xffff)
    then some (Ipv4.new (as_u8 (g / 2 ^ 8)) (as_u8 g) (as_u8 (h / 2 ^ 8)) (as_u8 h))
    else none
ipv4_in _ = none

unfoldable pub to_ipv4 : Ipv6Addr → Option Ipv4Addr
unfolding ipv4_in equal
to_ipv4 self = ipv4_in (segments self)

-- `Ipv4Addr::to_ipv6_compatible` and `Ipv4Addr::to_ipv6_mapped`.
unfoldable pub to_ipv6_compatible : Ipv4Addr → Ipv6Addr
to_ipv6_compatible self =
    let os = Ipv4.octets self in
    new 0 0 0 0 0 0 (bit_or (as_u16 (os.0 * 2 ^ 8)) os.1) (bit_or (as_u16 (os.2 * 2 ^ 8)) os.3)

unfoldable pub to_ipv6_mapped : Ipv4Addr → Ipv6Addr
to_ipv6_mapped self =
    let os = Ipv4.octets self in
    new 0 0 0 0 0 0xffff (bit_or (as_u16 (os.0 * 2 ^ 8)) os.1) (bit_or (as_u16 (os.2 * 2 ^ 8)) os.3)
