-- ===== src/Io/Slice.antt =====
-- io/impls.rs: `Read` for `&[u8]`, and `Write` for `&mut [u8]` and `Vec<u8>`. An argument
-- `buf: &mut [u8]` is a list that the call returns changed.
pub mod Reading
pub mod Contracts
use rust_libstd.Prelude.{
  ℕ, ◌+◌, ◌-◌, ◌≤◌, min, ◌==◌, ltb, leb, if◌then◌else◌, [], ◌∷◌, ◌++◌, length, take, drop, set,
  get_or,
}
use rust_libstd.Io.Error.{Call, ok, err, panic, unexpected_eof, write_zero}
use rust_libstd.Io.Writer.{Bytes, Write}

-- `copy_from_slice`, with the case of one byte apart; `a` has `amt` bytes and `buf` at least so
-- many.
abbrev pub copy : ℕ → Bytes → Bytes → Bytes
copy amt a buf = if amt == 1 then set buf 0 (get_or a 0 0) else a ++ drop amt buf

-- The result, the slice that is left, and `buf` after the call.
unfoldable pub read : Bytes → Bytes → Call ℕ × Bytes × Bytes
read self buf =
    let amt = min (length buf) (length self) in
    (ok amt, drop amt self, copy amt (take amt self) buf)

unfoldable pub read_exact : Bytes → Bytes → Call (Unit {0}) × Bytes × Bytes
read_exact self buf =
    if ltb (length self) (length buf)
    then (err unexpected_eof, self, buf)
    else (ok tt, drop (length buf) self, copy (length buf) (take (length buf) self) buf)

unfoldable pub read_to_end : Bytes → Bytes → Call ℕ × Bytes × Bytes
read_to_end self buf = (ok (length self), drop (length self) self, buf ++ self)

-- `&self[amt..]` panics beyond the end.
unfoldable pub consume : ℕ → Bytes → Call (Unit {0}) × Bytes
consume amt self = if leb amt (length self) then (ok tt, drop amt self) else (panic, self)

-- A `&mut [u8]` that is being written: the part of the memory that it has left behind, and the
-- part that it still covers.
pub record SliceMut : Type 0 where
  pub behind : Bytes
  pub slice : Bytes

unfoldable pub write : SliceMut → Bytes → Call ℕ × SliceMut
write self bytes =
    let amt = min (length bytes) (length self.slice) in
    (ok amt, record { behind = self.behind ++ take amt bytes; slice = drop amt self.slice })

abbrev pub all_written : ℕ → Call ℕ × SliceMut → Call (Unit {0}) × SliceMut
all_written n (ok amt, s) = (if amt == n then ok tt else err write_zero, s)
all_written n (err e, s) = (err e, s)
all_written n (panic, s) = (panic, s)

unfoldable pub write_all : SliceMut → Bytes → Call (Unit {0}) × SliceMut
unfolding write
write_all self bytes = all_written (length bytes) (write self bytes)

unfoldable pub extend : Bytes → Bytes → Call ℕ × Bytes
extend self buf = (ok (length buf), self ++ buf)

-- The two writers as implementations of the trait.
abbrev pub slice_writer : Write SliceMut
slice_writer = record { write = write; flush = λ w. (ok tt, w) }

abbrev pub vec_writer : Write Bytes
vec_writer = record { write = extend; flush = λ w. (ok tt, w) }
