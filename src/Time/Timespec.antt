-- ===== src/Time/Timespec.antt =====
-- sys/unix/time.rs: `Timespec`, a clock's seconds as an `i64` and its nanoseconds.
pub mod Span
use rust_libstd.Prelude.{
  ℕ, zero, suc, ◌+◌, ◌-◌, ◌<◌, ◌^◌, Bool, ◌&&◌, ◌||◌, ◌⊎◌, inl, inr, Option, none, some, ltb, leb,
  ◌==◌, if◌then◌else◌, Outcome, ok, panic, ◌>>=◌, expect,
}
use rust_libstd.Prelude.Words.{add32, sub32}
use rust_libstd.Prelude.Int.{ℤ, pos, negsuc, pos_part, neg_part, ◌+ℤ◌, ◌-ℤ◌, sub_ℕ}
use rust_libstd.Time.Duration
use rust_libstd.Time.Duration.{Duration}
use mathlib.Core.Option

abbrev pub nsec_per_sec : ℕ
nsec_per_sec = 1_000_000_000

pub record Timespec : Type 0 where
  pub tv_sec : ℤ
  pub tv_nsec : ℕ

abbrev pub fits_i64 : ℤ → Bool
fits_i64 z = ltb (pos_part z) (2 ^ 63) && leb (neg_part z) (2 ^ 63)

abbrev pub checked_i64 : ℤ → Option ℤ
checked_i64 z = if fits_i64 z then some z else none

-- A difference of two `i64` wraps at most once.
abbrev pub sub_i64 : ℤ → ℤ → ℤ
sub_i64 a b =
    let z = a -ℤ b in
    if leb (2 ^ 63) (pos_part z)
    then z -ℤ pos (2 ^ 64)
    else if ltb (2 ^ 63) (neg_part z)
    then z +ℤ pos (2 ^ 64)
    else z

-- `as u64` of an `i64`.
abbrev pub i64_as_u64 : ℤ → ℕ
i64_as_u64 (pos n) = n
i64_as_u64 (negsuc n) = 2 ^ 64 - suc n

-- `self >= other`: seconds first, then nanoseconds.
abbrev pub ge : Timespec → Timespec → Bool
ge self other =
    let d = self.tv_sec -ℤ other.tv_sec in
    ltb 0 (pos_part d) || ((neg_part d == 0) && leb other.tv_nsec self.tv_nsec)

unfoldable pub difference : Timespec → Timespec → Outcome Duration
difference self other =
    if leb other.tv_nsec self.tv_nsec
    then Duration.new (i64_as_u64 (sub_i64 self.tv_sec other.tv_sec)) (self.tv_nsec - other.tv_nsec)
    else Duration.new (i64_as_u64 (sub_i64 (sub_i64 self.tv_sec (pos 1)) other.tv_sec))
        (sub32 (add32 self.tv_nsec nsec_per_sec) other.tv_nsec)

-- `Ok` is `inl`, `Err` is `inr`; the recursive call swaps them.
abbrev pub swapped : Duration ⊎ Duration → Duration ⊎ Duration
swapped (inl d) = inr d
swapped (inr d) = inl d

unfoldable pub sub_timespec : ℕ → Timespec → Timespec → Option (Outcome (Duration ⊎ Duration))
unfolding difference
sub_timespec zero self other = none
sub_timespec (suc fuel) self other =
    let turned = Option.map (λ r. r >>= (λ d. ok (swapped d))) (sub_timespec fuel other self) in
    if ge self other then some (difference self other >>= (λ d. ok (inl d))) else turned

-- `try_into` of the seconds.
abbrev pub secs_i64 : Duration → Option ℤ
secs_i64 d = if ltb d.secs (2 ^ 63) then some (pos d.secs) else none

abbrev pub carried : ℤ → ℕ → Outcome Timespec
carried secs nsec =
    if leb nsec_per_sec nsec
    then expect (checked_i64 (secs +ℤ pos 1))
      >>= (λ s. ok (record { tv_sec = s; tv_nsec = sub32 nsec nsec_per_sec }))
    else ok (record { tv_sec = secs; tv_nsec = nsec })

unfoldable pub add_duration : Timespec → Duration → Outcome Timespec
add_duration self other =
    expect (Option.bind (secs_i64 other) (λ secs. checked_i64 (self.tv_sec +ℤ secs)))
    >>= (λ secs. carried secs (add32 other.nanos self.tv_nsec))

-- `nsec` is an `i32` here.
abbrev pub borrowed : ℤ → ℤ → Outcome Timespec
borrowed secs (pos nsec) = ok (record { tv_sec = secs; tv_nsec = nsec })
borrowed secs (negsuc nsec) =
    expect (checked_i64 (secs -ℤ pos 1))
    >>= (λ s. ok (record { tv_sec = s; tv_nsec = nsec_per_sec - suc nsec }))

unfoldable pub sub_duration : Timespec → Duration → Outcome Timespec
sub_duration self other =
    expect (Option.bind (secs_i64 other) (λ secs. checked_i64 (self.tv_sec -ℤ secs)))
    >>= (λ secs. borrowed secs (sub_ℕ self.tv_nsec other.nanos))

unfoldable pub eq : Timespec → Timespec → Bool
eq self other =
    (pos_part self.tv_sec == pos_part other.tv_sec)
    && (neg_part self.tv_sec == neg_part other.tv_sec)
    && (self.tv_nsec == other.tv_nsec)
