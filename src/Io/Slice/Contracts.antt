-- ===== src/Io/Slice/Contracts.antt =====
-- io/impls.rs: the slices and the vectors keep the contracts of `Read` and `Write`.
use rust_libstd.Prelude.{
  ℕ, ◌≤◌, ◌≡◌, refl, min, ◌==◌, ◌++◌, length, take, drop, get_or, take_all, length-set,
  length-append, length-take, length-drop, take-append-drop, arith, Bool-cases, inl, inr,
}
use rust_libstd.Io.Writer.{Bytes, WriteLaws}
use rust_libstd.Io.Reader.{Read, ReadLaws}
use rust_libstd.Io.Slice.{copy, read, extend, vec_writer}
use rust_libstd.Io.Slice.Reading.{take-copy}

abbrev pub slice_reader : Read Bytes
slice_reader = record { read = read }

length-copy :
    (n : ℕ) (a buf : Bytes) → length a ≡ n → n ≤ length buf → length (copy n a buf) ≡ length buf
length-copy n a buf h k = elim (Bool-cases (n == 1)) [
  | inl is_one ↦ rw is_one (length-set buf 0 (get_or a 0 0))
  | inr more ↦ rw more (omega (arith, length-append a (drop n buf), length-drop n buf))
]

pub slice_reader_laws : ReadLaws slice_reader
unfolding read
slice_reader_laws = record {
  pending = λ r. r;
  read_length = λ r buf.
      length-copy (min (length buf) (length r)) (take (min (length buf) (length r)) r) buf
        (omega (arith, length-take (min (length buf) (length r)) r)) (omega arith);
  read_ok = λ r buf n r' buf' e.
      let m = min (length buf) (length r) in
      let count : m ≡ n = cc in
      let rest : drop m r ≡ r' = cc in
      let out : copy m (take m r) buf ≡ buf' = cc in
      let got : length (take m r) ≡ m = omega (arith, length-take m r) in
      rw (← count, ← rest, ← out)
        (omega arith, rw (take-copy m (take m r) buf got (omega arith), take-append-drop) refl);
  read_err = λ r buf e r' buf' h. cc;
}

pub vec_writer_laws : WriteLaws vec_writer
unfolding extend
vec_writer_laws = record {
  output = λ w. w;
  interrupts = λ w. 0;
  write_ok = λ w buf n w' e.
      let count : length buf ≡ n = cc in
      let after : w ++ buf ≡ w' = cc in
      rw (← after, ← count)
        (omega arith, rw (take_all (length buf) buf (omega arith)) refl, omega arith);
  write_err = λ w buf e w' h. cc;
  flush_output = λ w. refl;
}
