-- ===== src/Io/Cursor/ReadBack.antt =====
-- io/cursor.rs: a write, a seek back to where it began, and a read.
use rust_libstd.Prelude.{
  ℕ, ◌+◌, ◌≤◌, ◌≡◌, refl, min, ◌++◌, length, take, drop, drop-append_front, length-append,
  length-take, arith,
}
use rust_libstd.Prelude.Words.{add64}
use rust_libstd.Io.Error.{ok}
use rust_libstd.Io.Writer.{Bytes}
use rust_libstd.Io.Slice.Reading.{read_front}
use rust_libstd.Io.Cursor.{Cursor, start, isize_max, resized, seek, fill_buf, read, write_vec}
use rust_libstd.Io.Cursor.Written.{splice, length-resized, write_vec-splice}

fill_buf-splice :
    (g : Bytes) (p : ℕ) (b : Bytes)
    → p ≤ length g
    → drop (min p (length (splice g p b))) (splice g p b) ≡ b ++ drop (p + length b) g
fill_buf-splice g p b h =
    let front : length (take p g) ≡ p = omega (arith, length-take p g) in
    let at : min p (length (splice g p b)) ≡ length (take p g) =
      omega (arith, front, length-append (take p g) (b ++ drop (p + length b) g)) in
    rw at (drop-append_front (take p g) (b ++ drop (p + length b) g))

-- After a write to a Cursor over a vector that ends within isize::MAX, a seek to where it began and
-- a read into a buffer as long as the written bytes return these bytes, and leave the cursor as the
-- write did.
pub read-write_vec :
    (self : Cursor Bytes) (bytes buf : Bytes)
    → length self.inner ≤ isize_max
    → self.pos + length bytes ≤ isize_max
    → length buf ≡ length bytes
    → let (_, after) = write_vec self bytes in
      let (_, back) = seek (λ b. b) after (start self.pos) in
      read (λ b. b) back buf ≡ (ok (length bytes), after, bytes)
unfolding read seek fill_buf
read-write_vec self bytes buf l h same =
    let g = resized self.inner self.pos in
    let room : self.pos ≤ length g = omega (arith, length-resized self.inner self.pos) in
    let moves : add64 self.pos (length bytes) ≡ self.pos + length bytes = omega arith in
    rw
      (
        write_vec-splice self bytes l h,
        fill_buf-splice g self.pos bytes room,
        read_front bytes (drop (self.pos + length bytes) g) buf same,
        moves,
      )
      refl
