-- ===== src/Io/BufReader.antt =====
-- io/buffered.rs: `BufReader`, over any inner reader.
pub mod Deliver
pub mod Moved
use rust_libstd.Prelude.{
  ℕ, ◌+◌, ◌-◌, ◌^◌, min, Bool, ◌&&◌, leb, ltb, ◌==◌, if◌then◌else◌, Option, none, some, length,
  take, drop,
}
use rust_libstd.Prelude.Words.{add64}
use rust_libstd.Prelude.Int.{ℤ, pos, negsuc, pos_part, neg_part, ◌-ℤ◌, sub_ℕ}
use rust_libstd.Io.Error.{Call, ok, err, panic}
use rust_libstd.Io.Writer.{Bytes}
use rust_libstd.Io.Reader.{Read, Seek}
use rust_libstd.Io.Cursor.{SeekFrom, start, end, current}
use rust_libstd.Io.Slice

pub record BufReader (R : Type 0) : Type 0 where
  pub inner : R
  pub buf : Bytes
  pub pos : ℕ
  pub cap : ℕ

-- `memory` is what the buffer holds after `initialize`; its length is the capacity.
unfoldable pub with_capacity : {R : Type 0} → Bytes → R → BufReader R
with_capacity memory inner = record { inner = inner; buf = memory; pos = 0; cap = 0 }

unfoldable pub is_empty : {R : Type 0} → BufReader R → Bool
is_empty self = self.pos == self.cap

-- `&self.buf[self.pos..self.cap]`
abbrev pub unread : {R : Type 0} → BufReader R → Bytes
unread self = take (self.cap - self.pos) (drop self.pos self.buf)

unfoldable pub consume : {R : Type 0} → ℕ → BufReader R → BufReader R
consume amt self = record self { pos = min (add64 self.pos amt) self.cap }

module _ {R : Type 0} (io : Read R) where
  -- Taking the slice panics where it ends behind the buffer.
  abbrev pub sliced : BufReader R → Call Bytes × BufReader R
  sliced self = if leb self.cap (length self.buf) then (ok (unread self), self) else (panic, self)

  abbrev pub refilled : BufReader R → Call ℕ × R × Bytes → Call Bytes × BufReader R
  refilled self (ok n, r, buf) = sliced (record { inner = r; buf = buf; pos = 0; cap = n })
  refilled self (err e, r, buf) = (err e, record self { inner = r; buf = buf })
  refilled self (panic, r, buf) = (panic, record self { inner = r; buf = buf })

  unfoldable pub fill_buf : BufReader R → Call Bytes × BufReader R
  fill_buf self =
      if leb self.cap self.pos then refilled self (io.read self.inner self.buf) else sliced self

  -- `rem.read(buf)?` and `consume`: the slice that `rem` is left with is dropped.
  abbrev pub copied : BufReader R → Call ℕ × Bytes × Bytes → Call ℕ × BufReader R × Bytes
  copied self (ok nread, rest, buf) = (ok nread, consume nread self, buf)
  copied self (err e, rest, buf) = (err e, self, buf)
  copied self (panic, rest, buf) = (panic, self, buf)

  abbrev pub read_filled : Bytes → Call Bytes × BufReader R → Call ℕ × BufReader R × Bytes
  read_filled buf (ok rem, self) = copied self (Slice.read rem buf)
  read_filled buf (err e, self) = (err e, self, buf)
  read_filled buf (panic, self) = (panic, self, buf)

  abbrev pub bypassed : BufReader R → Call ℕ × R × Bytes → Call ℕ × BufReader R × Bytes
  bypassed self (ret, r, buf) = (ret, record self { inner = r }, buf)

  unfoldable pub read : BufReader R → Bytes → Call ℕ × BufReader R × Bytes
  read self buf =
      if (self.pos == self.cap) && leb (length self.buf) (length buf)
      then bypassed self (io.read self.inner buf)
      else read_filled buf (fill_buf self)

-- `i64::checked_sub`.
abbrev pub checked_sub_i64 : ℤ → ℤ → Option ℤ
checked_sub_i64 a b =
    let d = a -ℤ b in
    if ltb (pos_part d) (2 ^ 63) && leb (neg_part d) (2 ^ 63) then some d else none

module _ {R : Type 0} (io : Seek R) where
  abbrev pub emptied : BufReader R → Call ℕ × R → Call ℕ × BufReader R
  emptied self (ok n, r) = (ok n, record self { inner = r; pos = self.cap })
  emptied self (err e, r) = (err e, record self { inner = r })
  emptied self (panic, r) = (panic, record self { inner = r })

  -- Back by the remainder first, then by the offset.
  abbrev pub twice : BufReader R → ℤ → Call ℕ × R → Call ℕ × BufReader R
  twice self n (ok _, r) =
      emptied (record self { inner = r; pos = self.cap }) (io.seek r (current n))
  twice self n (err e, r) = (err e, record self { inner = r })
  twice self n (panic, r) = (panic, record self { inner = r })

  abbrev pub by_offset : BufReader R → ℤ → ℤ → Option ℤ → Call ℕ × BufReader R
  by_offset self remainder n (some offset) = emptied self (io.seek self.inner (current offset))
  by_offset self remainder n none = twice self n (io.seek self.inner (current (pos 0 -ℤ remainder)))

  unfoldable pub seek : BufReader R → SeekFrom → Call ℕ × BufReader R
  seek self (current n) =
      let remainder = pos (self.cap - self.pos) in
      by_offset self remainder n (checked_sub_i64 n remainder)
  seek self (start n) = emptied self (io.seek self.inner (start n))
  seek self (end n) = emptied self (io.seek self.inner (end n))
