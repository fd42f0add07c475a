-- ===== src/Net/Ipv4/Blocks.antt =====
-- The predicates of `Ipv4Addr` are membership in the address blocks of the registries.
use rust_libstd.Prelude.{ℕ, ◌/◌, ◌^◌, ◌≡◌, refl, Bool, not, ◌||◌, ◌==◌, arith, ◌∙◌}
use rust_libstd.Net.{ntoh32, hton32, hton32-ntoh32}
use rust_libstd.Net.Ipv4.{
  Ipv4Addr, Octets, to_u32, is_private, is_loopback, is_link_local, is_multicast, is_broadcast,
  is_documentation, is_unspecified, is_global,
}
use rust_libstd.Net.Ipv4.Octets.{IsIpv4, number, octets-AreOctets, to_u32-number, number-octets}

-- `n` lies in the block of `2 ^ free` addresses that begins at a multiple `base` of that size.
abbrev pub in_block : ℕ → Octets → ℕ → Bool
in_block free base n = n / 2 ^ free == number base / 2 ^ free

pub record Classified (a : Ipv4Addr) (n : ℕ) : Type 0 where
  pub private_blocks : is_private a ≡ (
      in_block 24 (10, 0, 0, 0) n
      || in_block 20 (172, 16, 0, 0) n
      || in_block 16 (192, 168, 0, 0) n)
  pub loopback_block : is_loopback a ≡ in_block 24 (127, 0, 0, 0) n
  pub link_local_block : is_link_local a ≡ in_block 16 (169, 254, 0, 0) n
  pub multicast_block : is_multicast a ≡ in_block 28 (224, 0, 0, 0) n
  pub broadcast_block : is_broadcast a ≡ in_block 0 (255, 255, 255, 255) n
  pub documentation_blocks : is_documentation a ≡ (
      in_block 8 (192, 0, 2, 0) n
      || in_block 8 (198, 51, 100, 0) n
      || in_block 8 (203, 0, 113, 0) n)

pub to_u32-Classified : (a : Ipv4Addr) → Classified a (to_u32 a)
unfolding is_private is_loopback is_link_local is_multicast is_broadcast is_documentation
to_u32-Classified a =
    let h = octets-AreOctets a in
    rw (to_u32-number a) (record {
      private_blocks = ground arith;
      loopback_block = ground arith;
      link_local_block = ground arith;
      multicast_block = ground arith;
      broadcast_block = ground arith;
      documentation_blocks = ground arith;
    })

-- The blocks that `is_global` excludes.
abbrev pub reserved : ℕ → Bool
reserved n =
    in_block 24 (10, 0, 0, 0) n
    || in_block 20 (172, 16, 0, 0) n
    || in_block 16 (192, 168, 0, 0) n
    || in_block 24 (127, 0, 0, 0) n
    || in_block 16 (169, 254, 0, 0) n
    || in_block 0 (255, 255, 255, 255) n
    || in_block 8 (192, 0, 2, 0) n
    || in_block 8 (198, 51, 100, 0) n
    || in_block 8 (203, 0, 113, 0) n
    || in_block 0 (0, 0, 0, 0) n

is_unspecified-to_u32 :
    (a : Ipv4Addr) → IsIpv4 a → is_unspecified a ≡ in_block 0 (0, 0, 0, 0) (to_u32 a)
unfolding is_unspecified
is_unspecified-to_u32 a h =
    let e = to_u32-number a ∙ number-octets a in
    let back = hton32-ntoh32 a.s_addr h in
    let zero_s : ntoh32 0 ≡ 0 = unfold ntoh32 in refl in
    let zero_n : hton32 0 ≡ 0 = unfold hton32 in refl in rw e (ground (arith))

-- For every IPv4 address held in 32 bits, is_global holds exactly when its number lies in none of
-- the ten reserved blocks: 10.0.0.0/8, 172.16.0.0/12, 192.168.0.0/16, 127.0.0.0/8, 169.254.0.0/16,
-- 255.255.255.255, 192.0.2.0/24, 198.51.100.0/24, 203.0.113.0/24 and 0.0.0.0.
pub is_global-reserved : (a : Ipv4Addr) → IsIpv4 a → is_global a ≡ not (reserved (to_u32 a))
unfolding is_global
is_global-reserved a h =
    let c = to_u32-Classified a in
    rw
      (
        c.private_blocks,
        c.loopback_block,
        c.link_local_block,
        c.broadcast_block,
        c.documentation_blocks,
        is_unspecified-to_u32 a h,
      )
      (ground arith)
