-- ===== src/Io/Cursor/Seeking.antt =====
-- io/cursor.rs: `seek` is exact in the integers.
use rust_libstd.Prelude.{
  ℕ, ◌≤◌, ◌<◌, ◌^◌, ◌≡◌, refl, ltb, if◌then◌else◌, Option, none, some, length, arith,
}
use rust_libstd.Prelude.Words.{u64_mod}
use rust_libstd.Prelude.Int.{ℤ, pos, negsuc, pos_part, neg_part, ◌+ℤ◌}
use rust_libstd.Io.Error.{Call, ok, err, invalid_input}
use rust_libstd.Io.Writer.{Bytes}
use rust_libstd.Io.Cursor.{Cursor, SeekFrom, start, end, current, offset_from, moved, seek}

-- The bounds of `u64` and `i64`.
abbrev pub IsI64 : ℤ → Type 0
IsI64 n = (pos_part n < 2 ^ 63) × (neg_part n ≤ 2 ^ 63)

abbrev pub IsSeek : SeekFrom → Type 0
IsSeek (start n) = n < u64_mod
IsSeek (end n) = IsI64 n
IsSeek (current n) = IsI64 n

-- The position asked for, and whether it is one.
abbrev pub target : ℕ → ℕ → SeekFrom → ℤ
target len at (start n) = pos n
target len at (end n) = pos len +ℤ n
target len at (current n) = pos at +ℤ n

abbrev pub to_u64 : ℤ → Option ℕ
to_u64 (pos n) = if ltb n u64_mod then some n else none
to_u64 (negsuc n) = none

abbrev pub sought : {T : Type 0} → Cursor T → Option ℕ → Call ℕ × Cursor T
sought self (some n) = (ok n, record self { pos = n })
sought self none = (err invalid_input, self)

offset_from-exact :
    (base : ℕ) (n : ℤ) → base < u64_mod → IsI64 n → offset_from base n ≡ to_u64 (pos base +ℤ n)
unfolding ◌+ℤ◌
offset_from-exact base (pos n) h i = ground arith
offset_from-exact base (negsuc n) h i = ground arith

moved-sought :
    {T : Type 0} (as_ref : T → Bytes) (self : Cursor T) (n : Option ℕ)
    → moved as_ref self n ≡ sought self n
moved-sought as_ref self none = refl
moved-sought as_ref self (some n) = refl

-- For a position and a length within 64 bits and an offset within i64, seek moves a Cursor to the
-- target position computed over the integers when that lies in the range of u64, and otherwise
-- returns InvalidInput and leaves the cursor as it is.
pub seek-exact :
    {T : Type 0} (as_ref : T → Bytes) (self : Cursor T) (style : SeekFrom)
    → self.pos < u64_mod
    → length (as_ref self.inner) < u64_mod
    → IsSeek style
    → seek as_ref self style
      ≡ sought self (to_u64 (target (length (as_ref self.inner)) self.pos style))
unfolding seek
seek-exact as_ref self (start n) h l s = ground arith
seek-exact as_ref self (end n) h l s = rw (offset_from-exact _ n l s) (moved-sought as_ref self _)
seek-exact as_ref self (current n) h l s =
    rw (offset_from-exact _ n h s) (moved-sought as_ref self _)
