-- ===== src/Net/Ipv4.antt =====
-- net/ip.rs: `Ipv4Addr`. An `[u8; 4]` is a quadruple of numbers.
pub mod Blocks
pub mod Octets
use Prim.Native.Nat.{bit_or, compare, Ordering}
use rust_libstd.Prelude.{ℕ, ◌+◌, ◌*◌, ◌/◌, ◌%◌, ◌^◌, Bool, true, false, not, ◌&&◌, ◌||◌, leb, ◌==◌}
use rust_libstd.Prelude.Words.{as_u8, as_u32, add32}
use rust_libstd.Net.{hton32, ntoh32}

abbrev pub Octets : Type 0
Octets = ℕ × ℕ × ℕ × ℕ

pub record Ipv4Addr : Type 0 where
  pub s_addr : ℕ

unfoldable pub new : ℕ → ℕ → ℕ → ℕ → Ipv4Addr
new a b c d = record {
  s_addr =
      hton32 (
        bit_or (bit_or (bit_or (as_u32 (a * 2 ^ 24)) (as_u32 (b * 2 ^ 16))) (as_u32 (c * 2 ^ 8)))
          d);
}

unfoldable pub localhost : Ipv4Addr
localhost = new 127 0 0 1

unfoldable pub unspecified : Ipv4Addr
unspecified = new 0 0 0 0

unfoldable pub octets : Ipv4Addr → Octets
octets self =
    let bits = ntoh32 self.s_addr in
    (as_u8 (bits / 2 ^ 24), as_u8 (bits / 2 ^ 16), as_u8 (bits / 2 ^ 8), as_u8 bits)

unfoldable pub is_unspecified : Ipv4Addr → Bool
is_unspecified self = self.s_addr == 0

unfoldable pub is_loopback : Ipv4Addr → Bool
is_loopback self = (octets self).0 == 127

-- The arms of the `match`, in order.
private_octets : ℕ → ℕ → Bool
private_octets a b = a == 10 || (a == 172 && (leb 16 b && leb b 31)) || (a == 192 && b == 168)

unfoldable pub is_private : Ipv4Addr → Bool
unfolding private_octets
is_private self = private_octets (octets self).0 (octets self).1

unfoldable pub is_link_local : Ipv4Addr → Bool
is_link_local self = (octets self).0 == 169 && (octets self).1 == 254

unfoldable pub is_multicast : Ipv4Addr → Bool
is_multicast self = leb 224 (octets self).0 && leb (octets self).0 239

unfoldable pub is_broadcast : Ipv4Addr → Bool
is_broadcast self =
    (octets self).0 == 255
    && ((octets self).1 == 255 && ((octets self).2 == 255 && (octets self).3 == 255))

documentation_octets : ℕ → ℕ → ℕ → Bool
documentation_octets a b c =
    (a == 192 && (b == 0 && c == 2))
    || (a == 198 && (b == 51 && c == 100))
    || (a == 203 && (b == 0 && c == 113))

unfoldable pub is_documentation : Ipv4Addr → Bool
unfolding documentation_octets
is_documentation self = documentation_octets (octets self).0 (octets self).1 (octets self).2

unfoldable pub is_global : Ipv4Addr → Bool
is_global self =
    not (is_private self)
    && (not (is_loopback self)
        && (not (is_link_local self)
            && (not (is_broadcast self)
                && (not (is_documentation self) && not (is_unspecified self)))))

unfoldable pub eq : Ipv4Addr → Ipv4Addr → Bool
eq self other = self.s_addr == other.s_addr

unfoldable pub cmp : Ipv4Addr → Ipv4Addr → Ordering
cmp self other = compare (ntoh32 self.s_addr) (ntoh32 other.s_addr)

-- `From<Ipv4Addr> for u32` and `From<u32> for Ipv4Addr`.
unfoldable pub to_u32 : Ipv4Addr → ℕ
to_u32 self =
    let ip = octets self in
    add32 (add32 (add32 (as_u32 (ip.0 * 2 ^ 24)) (as_u32 (ip.1 * 2 ^ 16))) (as_u32 (ip.2 * 2 ^ 8)))
      ip.3

unfoldable pub from_u32 : ℕ → Ipv4Addr
from_u32 ip = new (as_u8 (ip / 2 ^ 24)) (as_u8 (ip / 2 ^ 16)) (as_u8 (ip / 2 ^ 8)) (as_u8 ip)

unfoldable pub from_octets : Octets → Ipv4Addr
from_octets os = new os.0 os.1 os.2 os.3
