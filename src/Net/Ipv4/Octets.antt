-- ===== src/Net/Ipv4/Octets.antt =====
-- The octets of an `Ipv4Addr`, the number that it stands for, and the order on addresses.
use Prim.Native.Nat.{bit_or, compare}
use rust_libstd.Prelude.{ℕ, ◌+◌, ◌*◌, ◌/◌, ◌%◌, ◌^◌, ◌<◌, ◌≡◌, sym, ◌∙◌, ap, true, arith, ◌↔◌}
use rust_libstd.Prelude.Bits.{bit_or_low}
use rust_libstd.Net.{hton32, ntoh32, ntoh32-hton32, hton32-ntoh32, hton32-lt, ntoh32-lt}
use rust_libstd.Net.Ipv4.{Ipv4Addr, Octets, new, octets, to_u32, from_u32, from_octets, eq, cmp}

-- The address is a `u32`.
abbrev pub IsIpv4 : Ipv4Addr → Type 0
IsIpv4 a = a.s_addr < 2 ^ 32

pub record AreOctets (os : Octets) : Type 0 where
  pub first : os.0 < 256
  pub second : os.1 < 256
  pub third : os.2 < 256
  pub fourth : os.3 < 256

-- The four octets read as one big-endian number.
abbrev pub number : Octets → ℕ
number os = os.0 * 2 ^ 24 + os.1 * 2 ^ 16 + os.2 * 2 ^ 8 + os.3

pack_lem :
    (a b c d : ℕ)
    → a < 256
    → b < 256
    → c < 256
    → d < 256
    → bit_or (bit_or (bit_or (a * 2 ^ 24 % 2 ^ 32) (b * 2 ^ 16 % 2 ^ 32)) (c * 2 ^ 8 % 2 ^ 32)) d
      ≡ a * 2 ^ 24 + b * 2 ^ 16 + c * 2 ^ 8 + d
pack_lem a b c d ha hb hc hd =
    let ea : a * 2 ^ 24 % 2 ^ 32 ≡ a * 2 ^ 24 = omega arith in
    let eb : b * 2 ^ 16 % 2 ^ 32 ≡ b * 2 ^ 16 = omega arith in
    let ec : c * 2 ^ 8 % 2 ^ 32 ≡ c * 2 ^ 8 = omega arith in
    let ab : a * 2 ^ 24 + b * 2 ^ 16 ≡ (a * 2 ^ 8 + b) * 2 ^ 16 = omega arith in
    let abc : (a * 2 ^ 8 + b) * 2 ^ 16 + c * 2 ^ 8 ≡ ((a * 2 ^ 8 + b) * 2 ^ 8 + c) * 2 ^ 8 =
      omega arith in
    rw
      (
        ea,
        eb,
        ec,
        bit_or_low 24 a (b * 2 ^ 16) (omega arith),
        ab,
        bit_or_low 16 (a * 2 ^ 8 + b) (c * 2 ^ 8) (omega arith),
        abc,
        bit_or_low 8 ((a * 2 ^ 8 + b) * 2 ^ 8 + c) d (omega arith),
      )
      (omega arith)

pub ntoh32-new : (os : Octets) → AreOctets os → ntoh32 (from_octets os).s_addr ≡ number os
unfolding from_octets new
ntoh32-new os h =
    rw (pack_lem os.0 os.1 os.2 os.3 h.first h.second h.third h.fourth)
      (ntoh32-hton32 (number os) (omega arith))

-- For four octets below 256, octets of the address that new builds from them are those octets,
-- through network byte order.
octets-from_octets : (os : Octets) → AreOctets os → octets (from_octets os) ≡ os
unfolding octets
octets-from_octets os h = rw (ntoh32-new os h) (ground arith)

pub octets-AreOctets : (a : Ipv4Addr) → AreOctets (octets a)
unfolding octets
octets-AreOctets a = omega arith

pub to_u32-number : (a : Ipv4Addr) → to_u32 a ≡ number (octets a)
unfolding to_u32
to_u32-number a = let h = octets-AreOctets a in omega arith

pub number-octets : (a : Ipv4Addr) → number (octets a) ≡ ntoh32 a.s_addr
unfolding octets
number-octets a = omega (arith, ntoh32-lt a.s_addr)

pub from_u32-AreOctets :
    (n : ℕ) → AreOctets (n / 2 ^ 24 % 2 ^ 8, n / 2 ^ 16 % 2 ^ 8, n / 2 ^ 8 % 2 ^ 8, n % 2 ^ 8)
from_u32-AreOctets n = omega arith

-- For every 32-bit number, the number of the address that From<u32> builds is that number.
to_u32-from_u32 : (n : ℕ) → n < 2 ^ 32 → to_u32 (from_u32 n) ≡ n
unfolding from_u32 new from_octets
to_u32-from_u32 n h =
    to_u32-number (from_u32 n)
    ∙ number-octets (from_u32 n)
    ∙ ntoh32-new _ (from_u32-AreOctets n)
    ∙ omega arith

s_addr_inj : (a b : Ipv4Addr) → IsIpv4 a → IsIpv4 b → to_u32 a ≡ to_u32 b → a ≡ b
s_addr_inj a b ha hb e =
    let na = to_u32-number a ∙ number-octets a in
    let nb = to_u32-number b ∙ number-octets b in
    let same : hton32 (ntoh32 a.s_addr) ≡ hton32 (ntoh32 b.s_addr) = ap hton32 (sym na ∙ e ∙ nb) in
    let s : a.s_addr ≡ b.s_addr =
      omega (arith, hton32-ntoh32 a.s_addr ha, hton32-ntoh32 b.s_addr hb) in
    ground arith

from_octets-IsIpv4 : (os : Octets) → IsIpv4 (from_octets os)
unfolding from_octets new
from_octets-IsIpv4 os = hton32-lt _

pub from_u32-to_u32 : (a : Ipv4Addr) → IsIpv4 a → from_u32 (to_u32 a) ≡ a
from_u32-to_u32 a h =
    s_addr_inj _ a (unfold from_u32 new in hton32-lt _) h
      (to_u32-from_u32 (to_u32 a) (omega (arith, to_u32-number a, octets-AreOctets a)))

pub from_octets-octets : (a : Ipv4Addr) → IsIpv4 a → from_octets (octets a) ≡ a
from_octets-octets a h =
    let os = octets-AreOctets a in
    s_addr_inj _ a (from_octets-IsIpv4 _) h
      (to_u32-number _ ∙ ap number (octets-from_octets (octets a) os) ∙ sym (to_u32-number a))

pub cmp-to_u32 : (a b : Ipv4Addr) → cmp a b ≡ compare (to_u32 a) (to_u32 b)
unfolding cmp
cmp-to_u32 a b = rw (to_u32-number a ∙ number-octets a, to_u32-number b ∙ number-octets b)

-- Two addresses held in 32 bits are equal for PartialEq exactly when their octets are.
eq-octets : (a b : Ipv4Addr) → IsIpv4 a → IsIpv4 b → (eq a b ≡ true) ↔ (octets a ≡ octets b)
unfolding eq
eq-octets a b ha hb = (
  λ h. ap octets (ground arith),
  λ e.
      let same : a.s_addr ≡ b.s_addr =
        ap (λ (x : Ipv4Addr). x.s_addr)
          (sym (from_octets-octets a ha) ∙ ap from_octets e ∙ from_octets-octets b hb) in
      ground arith,
)
