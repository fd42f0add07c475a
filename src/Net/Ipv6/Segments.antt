-- ===== src/Net/Ipv6/Segments.antt =====
-- net/ip.rs: the segments of an `Ipv6Addr`, and the IPv4 addresses inside.
use Prim.Native.Nat.{bit_or}
use rust_libstd.Prelude.{ℕ, ◌+◌, ◌*◌, ◌/◌, ◌%◌, ◌^◌, ◌<◌, ◌≡◌, refl, ◌∙◌, ap, some, [], ◌∷◌, arith}
use rust_libstd.Prelude.Bits.{bit_or_low}
use rust_libstd.Prelude.Words.{as_u8, as_u16}
use rust_libstd.Net.Ipv4
use rust_libstd.Net.Ipv4.{Ipv4Addr}
use rust_libstd.Net.Ipv4.Octets.{IsIpv4, octets-AreOctets, from_octets-octets}
use rust_libstd.Net.Ipv6.{new, pairs, segments, equal, to_ipv4, to_ipv6_compatible, to_ipv6_mapped}

join : (hi lo : ℕ) → hi < 256 → lo < 256 → bit_or (as_u16 (hi * 2 ^ 8)) lo ≡ hi * 2 ^ 8 + lo
join hi lo h l =
    let fits : hi * 2 ^ 8 % 2 ^ 16 ≡ hi * 2 ^ 8 = omega arith in
    rw fits (bit_or_low 8 hi lo (omega arith))

whole : (a : ℕ) → a < 2 ^ 16 → bit_or (as_u16 (as_u8 (a / 2 ^ 8) * 2 ^ 8)) (as_u8 a) ≡ a
whole a h = join (as_u8 (a / 2 ^ 8)) (as_u8 a) (omega arith) (omega arith) ∙ omega arith

-- For eight numbers of 16 bits, segments of the address that new builds from them are these
-- numbers.
segments-new :
    (a b c d e f g h : ℕ)
    → (a < 2 ^ 16) × (b < 2 ^ 16) × (c < 2 ^ 16) × (d < 2 ^ 16)
    → (e < 2 ^ 16) × (f < 2 ^ 16) × (g < 2 ^ 16) × (h < 2 ^ 16)
    → segments (new a b c d e f g h) ≡ a ∷ b ∷ c ∷ d ∷ e ∷ f ∷ g ∷ h ∷ []
unfolding segments new pairs
segments-new a b c d e f g h (ha, hb, hc, hd) (he, hf, hg, hh) =
    rw
      (
        whole a ha,
        whole b hb,
        whole c hc,
        whole d hd,
        whole e he,
        whole f hf,
        whole g hg,
        whole h hh,
      )
      refl

-- The halves of two octets that are joined.
halves :
    (hi lo : ℕ)
    → hi < 256
    → lo < 256
    → (as_u8 ((hi * 2 ^ 8 + lo) / 2 ^ 8) ≡ hi) × (as_u8 (hi * 2 ^ 8 + lo) ≡ lo)
halves hi lo h l = (omega arith, omega arith)

-- For every IPv4 address held in 32 bits, to_ipv4 of its compatible and of its mapped IPv6 address
-- is that address.
to_ipv4-to_ipv6 :
    (a : Ipv4Addr)
    → IsIpv4 a
    → (to_ipv4 (to_ipv6_compatible a) ≡ some a) × (to_ipv4 (to_ipv6_mapped a) ≡ some a)
unfolding to_ipv4 to_ipv6_compatible to_ipv6_mapped equal Ipv4.from_octets
to_ipv4-to_ipv6 a h =
    let os = Ipv4.octets a in
    let is = octets-AreOctets a in
    let g = os.0 * 2 ^ 8 + os.1 in
    let l = os.2 * 2 ^ 8 + os.3 in
    let (g_hi, g_lo) = halves os.0 os.1 is.first is.second in
    let (l_hi, l_lo) = halves os.2 os.3 is.third is.fourth in
    let same : Ipv4.new os.0 os.1 os.2 os.3 ≡ a = from_octets-octets a h in
    let joined = join os.0 os.1 is.first is.second in
    let joined_low = join os.2 os.3 is.third is.fourth in
    (
      rw
          (
            joined,
            joined_low,
            segments-new 0 0 0 0 0 0 g l (omega arith)
                (omega (arith, is.first, is.second, is.third, is.fourth)),
            g_hi,
            g_lo,
            l_hi,
            l_lo,
          )
          (ap some same),
      rw
          (
            joined,
            joined_low,
            segments-new 0 0 0 0 0 0xffff g l (omega arith)
                (omega (arith, is.first, is.second, is.third, is.fourth)),
            g_hi,
            g_lo,
            l_hi,
            l_lo,
          )
          (ap some same),
    )
