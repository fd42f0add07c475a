-- ===== src/Tests/CursorTests.antt =====
-- io/cursor.rs, io/buffered.rs: the inputs of their tests, and the theorems at concrete buffers.
use rust_libstd.Prelude.{ℕ, ◌+◌, ◌≡◌, refl, some, [], ◌∷◌, get_elem?, arith}
use rust_libstd.Prelude.Int.{ℤ, pos, negsuc, ◌+ℤ◌, ◌-ℤ◌}
use rust_libstd.Io.Error.{Call, ok, err, invalid_input}
use rust_libstd.Io.Writer.{Bytes}
use rust_libstd.Io.Reader.{Seek, SeekLaws}
use rust_libstd.Io.Slice
use rust_libstd.Io.Slice.Contracts.{slice_reader, slice_reader_laws}
use rust_libstd.Io.Cursor
use rust_libstd.Io.Cursor.{Cursor, SeekFrom, start, end, current, write_vec, write_slice}
use rust_libstd.Io.Cursor.Seeking.{seek-exact}
use rust_libstd.Io.Cursor.Written.{write_vec-overlay}
use rust_libstd.Io.Cursor.ReadBack.{read-write_vec}
use rust_libstd.Io.BufReader
use rust_libstd.Io.BufReader.{BufReader, with_capacity}
use rust_libstd.Io.BufReader.Deliver.{Delivered, read-Delivered}
use rust_libstd.Io.BufReader.Moved.{seek-position}

program : Unit {0}
unfolding Slice.read Slice.write Cursor.new Cursor.set_position Cursor.seek Cursor.fill_buf
    Cursor.read Cursor.consume write_slice write_vec with_capacity BufReader.is_empty
    BufReader.consume BufReader.fill_buf BufReader.read BufReader.seek ◌+ℤ◌ ◌-ℤ◌
program = tt

abbrev filled : Cursor Bytes
filled = record { inner = 1 ∷ 2 ∷ 3 ∷ []; pos = 2 }

overwrites : write_vec filled (7 ∷ 8 ∷ []) ≡ (ok 2, record { inner = 1 ∷ 2 ∷ 7 ∷ 8 ∷ []; pos = 4 })
unfolding program
overwrites = refl

pads :
    write_vec (record { inner = 1 ∷ []; pos = 3 }) (7 ∷ [])
    ≡ (ok 1, record { inner = 1 ∷ 0 ∷ 0 ∷ 7 ∷ []; pos = 4 })
unfolding program
pads = refl

cuts : write_slice filled (7 ∷ 8 ∷ []) ≡ (ok 1, record { inner = 1 ∷ 2 ∷ 7 ∷ []; pos = 3 })
unfolding program
cuts = refl

seek-exact_example : Cursor.seek (λ b. b) filled (current (negsuc 2)) ≡ (err invalid_input, filled)
unfolding program
seek-exact_example =
    seek-exact (λ b. b) filled (current (negsuc 2)) (omega arith) (omega arith) (omega arith)

write_vec-overlay_example :
    let (ret, after) = write_vec filled (7 ∷ 8 ∷ []) in
    (ret ≡ ok 2) × (after.pos ≡ 4) × (get_elem? after.inner 3 ≡ some 8)
write_vec-overlay_example = write_vec-overlay filled (7 ∷ 8 ∷ []) 3 (omega arith) (omega arith)

read-write_vec_example :
    let (_, after) = write_vec filled (7 ∷ 8 ∷ []) in
    let (_, back) = Cursor.seek (λ b. b) after (start 2) in
    Cursor.read (λ b. b) back (0 ∷ 0 ∷ []) ≡ (ok 2, after, 7 ∷ 8 ∷ [])
read-write_vec_example =
    read-write_vec filled (7 ∷ 8 ∷ []) (0 ∷ 0 ∷ []) (omega arith) (omega arith) refl

-- A `BufReader` of two bytes over a slice, after a byte has been read.
abbrev half_read : BufReader Bytes
half_read = record { inner = 3 ∷ 4 ∷ []; buf = 1 ∷ 2 ∷ []; pos = 1; cap = 2 }

reads :
    BufReader.read slice_reader half_read (0 ∷ 0 ∷ 0 ∷ [])
    ≡ (ok 1, record half_read { pos = 2 }, 2 ∷ 0 ∷ 0 ∷ [])
unfolding program
reads = refl

read-Delivered_example :
    Delivered slice_reader slice_reader_laws half_read 3
      (BufReader.read slice_reader half_read (0 ∷ 0 ∷ 0 ∷ []))
read-Delivered_example =
    read-Delivered slice_reader slice_reader_laws half_read (0 ∷ 0 ∷ 0 ∷ []) (omega arith)

-- A file of ten bytes, as the position in it.
abbrev landed : ℕ → ℤ → Call ℕ × ℕ
landed at (pos n) = (ok n, n)
landed at (negsuc n) = (err invalid_input, at)

abbrev seek_file : ℕ → SeekFrom → Call ℕ × ℕ
seek_file at (start n) = (ok n, n)
seek_file at (end k) = landed at (pos 10 +ℤ k)
seek_file at (current k) = landed at (pos at +ℤ k)

abbrev file : Seek ℕ
file = record { seek = seek_file }

file_laws : SeekLaws file
file_laws = record { position = λ r. r; seek_current = λ r k n r' e. arrives r (pos r +ℤ k) n r' e }
  where
    arrives : (r : ℕ) (z : ℤ) (n r' : ℕ) → landed r z ≡ (ok n, r') → (pos n ≡ z) × (r' ≡ n)
    arrives r (pos m) n r' e =
        let count : m ≡ n = cc in let there : m ≡ r' = cc in rw (← there, ← count) (refl, refl)
    arrives r (negsuc m) n r' e = cc

abbrev before_seek : BufReader ℕ
before_seek = record { inner = 6; buf = 1 ∷ 2 ∷ 3 ∷ 4 ∷ []; pos = 1; cap = 4 }

seeks :
    BufReader.seek file before_seek (current (pos 2))
    ≡ (ok 5, record before_seek { inner = 5; pos = 4 })
unfolding program
seeks = refl

seek-position_example :
    (pos 5 ≡ (pos 6 -ℤ pos 3) +ℤ pos 2) × (before_seek.pos + 4 ≡ 5) × (before_seek.cap ≡ 4)
unfolding file_laws
seek-position_example = seek-position file file_laws before_seek (pos 2) 5 _ seeks
