-- ===== src/Io/Reader.antt =====
-- The traits `Read` and `Seek` of io/mod.rs as interfaces: their methods on a state `R`, and what
-- their documentation promises of them.
pub mod Contract
use rust_libstd.Prelude.{ℕ, ◌≤◌, ◌<◌, ◌≡◌, [], ◌++◌, length, take}
use rust_libstd.Prelude.Int.{ℤ, pos, ◌+ℤ◌}
use rust_libstd.Io.Error.{ErrorKind, interrupted, Call, ok, err}
use rust_libstd.Io.Writer.{Bytes}
use rust_libstd.Io.Cursor.{SeekFrom, current}

-- A call of `read` returns the reader and the buffer after it.
pub record Read (R : Type 0) : Type 0 where
  pub read : R → Bytes → Call ℕ × R × Bytes

-- `pending` is what the reader has still to deliver. A call of `read` delivers the first `n` bytes
-- of it into the buffer, and none when it returns an error.
pub record ReadLaws {R : Type 0} (io : Read R) : Type 0 where
  pub pending : R → Bytes
  pub read_length : (r : R) (buf : Bytes) → length (io.read r buf).2 ≡ length buf
  pub read_ok :
      (r : R) (buf : Bytes) (n : ℕ) (r' : R) (buf' : Bytes)
      → io.read r buf ≡ (ok n, r', buf')
      → (n ≤ length buf) × (pending r ≡ take n buf' ++ pending r')
  pub read_err :
      (r : R) (buf : Bytes) (e : ErrorKind) (r' : R) (buf' : Bytes)
      → io.read r buf ≡ (err e, r', buf')
      → pending r' ≡ pending r

pub record Seek (R : Type 0) : Type 0 where
  pub seek : R → SeekFrom → Call ℕ × R

-- A seek from the current position that succeeds moves it by the offset, and returns it.
pub record SeekLaws {R : Type 0} (io : Seek R) : Type 0 where
  pub position : R → ℕ
  pub seek_current :
      (r : R) (k : ℤ) (n : ℕ) (r' : R)
      → io.seek r (current k) ≡ (ok n, r')
      → (pos n ≡ pos (position r) +ℤ k) × (position r' ≡ n)

-- `interrupts` bounds how often the reader will still return `Interrupted`, and a read of no byte
-- into a buffer that is not empty means that nothing is left to deliver.
pub record ReadEnds {R : Type 0} (io : Read R) (laws : ReadLaws io) : Type 0 where
  pub interrupts : R → ℕ
  pub calm :
      (r : R) (buf : Bytes) (n : ℕ) (r' : R) (buf' : Bytes)
      → io.read r buf ≡ (ok n, r', buf')
      → interrupts r' ≤ interrupts r
  pub fewer :
      (r : R) (buf : Bytes) (r' : R) (buf' : Bytes)
      → io.read r buf ≡ (err interrupted, r', buf')
      → interrupts r' < interrupts r
  pub ends :
      (r : R) (buf : Bytes) (r' : R) (buf' : Bytes)
      → 0 < length buf
      → io.read r buf ≡ (ok 0, r', buf')
      → laws.pending r ≡ []
