-- ===== src/Io/Cursor.antt =====
-- io/cursor.rs: `Cursor`, over slices, boxed slices and vectors. A `usize` has 64 bits.
pub mod Seeking
pub mod Written
pub mod ReadBack
use rust_libstd.Prelude.{
  ℕ, zero, suc, ◌+◌, ◌-◌, ◌%◌, ◌^◌, min, ltb, leb, if◌then◌else◌, Option, none, some, ◌++◌, length,
  take, drop, replicate,
}
use rust_libstd.Prelude.Words.{add64, as_u64, u64_mod, checked_add64, checked_sub64}
use rust_libstd.Prelude.Int.{ℤ, pos, negsuc}
use rust_libstd.Io.Error.{Call, ok, err, panic, invalid_input}
use rust_libstd.Io.Writer.{Bytes}
use rust_libstd.Io.Slice
use rust_libstd.Io.Slice.{SliceMut}

pub record Cursor (T : Type 0) : Type 0 where
  pub inner : T
  pub pos : ℕ

-- io/mod.rs
pub data SeekFrom : Type 0 where
  start : ℕ → SeekFrom
  end : ℤ → SeekFrom
  current : ℤ → SeekFrom

unfoldable pub new : {T : Type 0} → T → Cursor T
new inner = record { inner = inner; pos = 0 }

unfoldable pub set_position : {T : Type 0} → ℕ → Cursor T → Cursor T
set_position n self = record self { pos = n }

-- `offset.wrapping_neg() as u64` of `-(n + 1)`.
abbrev pub negated : ℕ → ℕ
negated n = suc n % u64_mod

abbrev pub offset_from : ℕ → ℤ → Option ℕ
offset_from base (pos n) = checked_add64 base (as_u64 n)
offset_from base (negsuc n) = checked_sub64 base (negated n)

module _ {T : Type 0} (as_ref : T → Bytes) where
  abbrev pub moved : Cursor T → Option ℕ → Call ℕ × Cursor T
  moved self (some n) = (ok n, record self { pos = n })
  moved self none = (err invalid_input, self)

  unfoldable pub seek : Cursor T → SeekFrom → Call ℕ × Cursor T
  seek self (start n) = (ok n, record self { pos = n })
  seek self (end n) = moved self (offset_from (length (as_ref self.inner)) n)
  seek self (current n) = moved self (offset_from self.pos n)

  unfoldable pub fill_buf : Cursor T → Bytes
  fill_buf self = drop (min self.pos (length (as_ref self.inner))) (as_ref self.inner)

  -- The reader of slices returns `Ok`; the slice that it leaves is dropped.
  abbrev pub advanced : Cursor T → Call ℕ × Bytes × Bytes → Call ℕ × Cursor T × Bytes
  advanced self (ok n, rest, buf) = (ok n, record self { pos = add64 self.pos n }, buf)
  advanced self (err e, rest, buf) = (err e, self, buf)
  advanced self (panic, rest, buf) = (panic, self, buf)

  unfoldable pub read : Cursor T → Bytes → Call ℕ × Cursor T × Bytes
  read self buf = advanced self (Slice.read (fill_buf self) buf)

unfoldable pub consume : {T : Type 0} → ℕ → Cursor T → Cursor T
consume amt self = record self { pos = add64 self.pos amt }

-- `Write` for `Cursor<&mut [u8]>` and `Cursor<Box<[u8]>>`: the slice behind the position.
abbrev pub stored : Cursor Bytes → Call ℕ × SliceMut → Call ℕ × Cursor Bytes
stored self (ok amt, s) = (ok amt, record { inner = s.behind ++ s.slice; pos = add64 self.pos amt })
stored self (err e, s) = (err e, record self { inner = s.behind ++ s.slice })
stored self (panic, s) = (panic, record self { inner = s.behind ++ s.slice })

unfoldable pub write_slice : Cursor Bytes → Bytes → Call ℕ × Cursor Bytes
write_slice self bytes =
    let at = min self.pos (length self.inner) in
    stored self
      (Slice.write (record { behind = take at self.inner; slice = drop at self.inner }) bytes)

-- A vector has at most `isize::MAX` bytes, else `resize` and `extend_from_slice` panic.
abbrev pub isize_max : ℕ
isize_max = 2 ^ 63 - 1

abbrev pub resized : Bytes → ℕ → Bytes
resized inner at = if ltb (length inner) at then inner ++ replicate (at - length inner) 0 else inner

-- `left` overwrites what is there, `right` goes to the end.
abbrev pub split_write : Cursor Bytes → Bytes → Bytes → Call ℕ × Cursor Bytes
split_write self inner buf =
    let space = length inner - self.pos in
    let left = take (min space (length buf)) buf in
    let right = drop (min space (length buf)) buf in
    let overwritten = take self.pos inner ++ (left ++ drop (self.pos + length left) inner) in
    if ltb isize_max (length inner + length right)
    then (panic, record self { inner = overwritten })
    else (
      ok (length buf),
      record { inner = overwritten ++ right; pos = add64 self.pos (length buf) },
    )

unfoldable pub write_vec : Cursor Bytes → Bytes → Call ℕ × Cursor Bytes
write_vec self buf =
    if ltb isize_max self.pos
    then (panic, self)
    else split_write self (resized self.inner self.pos) buf
