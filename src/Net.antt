-- ===== src/Net.antt =====
-- net/mod.rs: conversion to and from network byte order, on a little-endian target (there `to_be`
-- and `from_be` of an unsigned integer swap its bytes).
pub mod Decimal
pub mod Display
pub mod Ipv4
pub mod Ipv6
pub mod Parser
pub mod Ipv6Parser
pub mod AddrParser
pub mod SocketAddr
use rust_libstd.Prelude.{ℕ, ◌+◌, ◌*◌, ◌/◌, ◌%◌, ◌^◌, ◌<◌, ◌≡◌, arith}

swap_bytes32 : ℕ → ℕ
swap_bytes32 x =
    x % 256 * 2 ^ 24 + x / 2 ^ 8 % 256 * 2 ^ 16 + x / 2 ^ 16 % 256 * 2 ^ 8 + x / 2 ^ 24 % 256

swap_bytes16 : ℕ → ℕ
swap_bytes16 x = x % 256 * 2 ^ 8 + x / 2 ^ 8 % 256

unfoldable pub hton32 : ℕ → ℕ
unfolding swap_bytes32
hton32 i = swap_bytes32 i

unfoldable pub ntoh32 : ℕ → ℕ
unfolding swap_bytes32
ntoh32 i = swap_bytes32 i

unfoldable pub hton16 : ℕ → ℕ
unfolding swap_bytes16
hton16 i = swap_bytes16 i

unfoldable pub ntoh16 : ℕ → ℕ
unfolding swap_bytes16
ntoh16 i = swap_bytes16 i

pub ntoh32-hton32 : (i : ℕ) → i < 2 ^ 32 → ntoh32 (hton32 i) ≡ i
unfolding hton32 ntoh32
ntoh32-hton32 i h = omega arith

pub hton32-ntoh32 : (i : ℕ) → i < 2 ^ 32 → hton32 (ntoh32 i) ≡ i
unfolding hton32 ntoh32
hton32-ntoh32 i h = omega arith

pub hton32-lt : (i : ℕ) → hton32 i < 2 ^ 32
unfolding hton32
hton32-lt i = omega arith

pub ntoh32-lt : (i : ℕ) → ntoh32 i < 2 ^ 32
unfolding ntoh32
ntoh32-lt i = omega arith

pub ntoh16-hton16 : (i : ℕ) → i < 2 ^ 16 → ntoh16 (hton16 i) ≡ i
unfolding hton16 ntoh16
ntoh16-hton16 i h = omega arith
