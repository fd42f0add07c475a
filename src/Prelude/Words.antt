-- ===== src/Prelude/Words.antt =====
-- Machine words as native numbers: the wrapping operations and the checked ones of `u32`, `u64`.
use Prim.Native.Nat.{ℕ, ◌+◌, ◌-◌, ◌*◌, ◌%◌, ◌^◌}
use mathlib.Core.Option.{Option, none, some}
use rust_libstd.Prelude.Tests.{ltb, leb, if◌then◌else◌}

abbrev pub u32_mod : ℕ
u32_mod = 2 ^ 32

abbrev pub u64_mod : ℕ
u64_mod = 2 ^ 64

-- `as u8`, `as u16`, `as u32`, `as u64`.
abbrev pub as_u8 : ℕ → ℕ
as_u8 a = a % 2 ^ 8

abbrev pub as_u16 : ℕ → ℕ
as_u16 a = a % 2 ^ 16

abbrev pub as_u32 : ℕ → ℕ
as_u32 a = a % u32_mod

abbrev pub as_u64 : ℕ → ℕ
as_u64 a = a % u64_mod

abbrev pub add32 : ℕ → ℕ → ℕ
add32 a b = (a + b) % u32_mod

abbrev pub sub32 : ℕ → ℕ → ℕ
sub32 a b = (a + u32_mod - b) % u32_mod

abbrev pub mul32 : ℕ → ℕ → ℕ
mul32 a b = a * b % u32_mod

abbrev pub add64 : ℕ → ℕ → ℕ
add64 a b = (a + b) % u64_mod

abbrev pub sub64 : ℕ → ℕ → ℕ
sub64 a b = (a + u64_mod - b) % u64_mod

abbrev pub mul64 : ℕ → ℕ → ℕ
mul64 a b = a * b % u64_mod

-- `u64::checked_add`, `checked_sub` and `checked_mul`.
abbrev pub checked_add64 : ℕ → ℕ → Option ℕ
checked_add64 a b = if ltb (a + b) u64_mod then some (a + b) else none

abbrev pub checked_sub64 : ℕ → ℕ → Option ℕ
checked_sub64 a b = if leb b a then some (a - b) else none

abbrev pub checked_mul64 : ℕ → ℕ → Option ℕ
checked_mul64 a b = if ltb (a * b) u64_mod then some (a * b) else none
