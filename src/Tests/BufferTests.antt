-- ===== src/Tests/BufferTests.antt =====
-- io/buffered.rs: a writer that takes a few bytes at a time and is interrupted at first, runs of
-- the models over it, and the theorems at it.
use rust_libstd.Io.BufWriter.Stream.{stream, Returned}
use rust_libstd.Io.BufWriter.Calls.{write-Returned}
use rust_libstd.Io.BufWriter.Emptied.{Emptied, Stuck, flush-Emptied}
use rust_libstd.Io.BufWriter.Ends.{write-flush-some}
use rust_libstd.Io.BufWriter.Leave.{into_inner-output}
use mathlib.Core.Option
use rust_libstd.Prelude.{
  ◌+◌, Option, ◌==◌, if◌then◌else◌, ℕ, zero, suc, ◌≡◌, ◌≢◌, ◌⊎◌, ◌≤◌, ◌<◌, refl, some, none, [],
  ◌∷◌, ◌++◌, length, take, min, arith, true, false,
}
use rust_libstd.Io.Error.{ErrorKind, interrupted, Call, ok, err, panic}
use rust_libstd.Io.Writer.{Bytes, Write, WriteLaws}
use rust_libstd.Io.LineWriter
use rust_libstd.Io.LineWriter.{LineWriter}
use rust_libstd.Io.LineWriter.Lines.{line_write-Returned}
use rust_libstd.Io.BufWriter.{
  BufWriter, flush_loop, flush_buf, store, write, flush, flush_inner, into_inner, drop_writer,
  with_capacity,
}

-- What is written, and how often a call will still be interrupted.
abbrev Slow : Type 0
Slow = Bytes × ℕ

abbrev slow_write : Slow → Bytes → Call ℕ × Slow
slow_write (b, zero) bytes =
    (ok (min 2 (length bytes)), (b ++ take (min 2 (length bytes)) bytes, 0))
slow_write (b, suc n) bytes = (err interrupted, (b, n))

abbrev slow : Write Slow
slow = record { write = slow_write; flush = λ w. (ok tt, w) }

slow_laws : WriteLaws slow
slow_laws = record {
  output = λ w. w.0;
  interrupts = λ w. w.1;
  write_ok = kept;
  write_err = refused;
  flush_output = λ w. refl;
}
  where
    kept :
        (w : Slow) (buf : Bytes) (n : ℕ) (w' : Slow)
        → slow_write w buf ≡ (ok n, w')
        → (n ≤ length buf) × (w'.0 ≡ w.0 ++ take n buf) × (w'.1 ≤ w.1)
    kept (b, zero) buf n w' e =
        let count : min 2 (length buf) ≡ n = cc in
        let after : (b ++ take (min 2 (length buf)) buf, 0) ≡ w' = cc in
        rw (← after, ← count) (omega arith, refl, omega arith)
    kept (b, suc k) buf n w' e = cc

    refused :
        (w : Slow) (buf : Bytes) (e : ErrorKind) (w' : Slow)
        → slow_write w buf ≡ (err e, w')
        → (w'.0 ≡ w.0) × (w'.1 ≤ w.1) × (e ≡ interrupted → w'.1 < w.1)
    refused (b, zero) buf k w' e = cc
    refused (b, suc n) buf k w' e =
        let after : (b, n) ≡ w' = cc in rw (← after) (refl, omega arith, λ h. omega arith)

program : Unit {0}
unfolding LineWriter.flush LineWriter.write with_capacity flush_loop flush_buf store write flush
    flush_inner into_inner drop_writer
program = tt

abbrev fresh : BufWriter Slow
unfolding program
fresh = with_capacity 4 ([], 2)

abbrev half : BufWriter Slow
half = record { inner = ([], 2); buf = 1 ∷ 2 ∷ 3 ∷ []; capacity = 4; panicked = false }

fills : write slow 10 fresh (1 ∷ 2 ∷ 3 ∷ []) ≡ some (ok 3, half)
unfolding program
fills = refl

abbrev drained_half : BufWriter Slow
drained_half = record {
  inner = (1 ∷ 2 ∷ 3 ∷ [], 0);
  buf = 4 ∷ 5 ∷ [];
  capacity = 4;
  panicked = false;
}

overflows : write slow 10 half (4 ∷ 5 ∷ []) ≡ some (ok 2, drained_half)
unfolding program
overflows = refl

write-Returned_example :
    Returned slow slow_laws half (λ n. take n (4 ∷ 5 ∷ [])) (ok 2, drained_half)
write-Returned_example =
    write-Returned slow slow_laws 10 half (4 ∷ 5 ∷ []) (ok 2, drained_half) (omega arith) overflows

flushes : flush slow 10 half ≡ some (ok tt, record half { inner = (1 ∷ 2 ∷ 3 ∷ [], 0); buf = [] })
unfolding program
flushes = refl

flush-Emptied_example :
    (Emptied slow slow_laws half (ok tt, record half { inner = (1 ∷ 2 ∷ 3 ∷ [], 0); buf = [] })
      ⊎ Stuck slow slow_laws 10 half (ok tt, record half { inner = (1 ∷ 2 ∷ 3 ∷ [], 0); buf = [] }))
    × Returned slow slow_laws half
        (λ _. [])
        (ok tt, record half { inner = (1 ∷ 2 ∷ 3 ∷ [], 0); buf = [] })
flush-Emptied_example = flush-Emptied slow slow_laws 10 half _ (omega arith) flushes

write-flush-some_example : (write slow 6 half (7 ∷ []) ≢ none) × (flush slow 6 half ≢ none)
unfolding slow_laws
write-flush-some_example = write-flush-some slow slow_laws 6 half (7 ∷ []) (omega arith)

takes_apart :
    into_inner slow 10 half
    ≡ some (ok ((1 ∷ 2 ∷ 3 ∷ [], 0)), record half { inner = (1 ∷ 2 ∷ 3 ∷ [], 0); buf = [] })
unfolding program
takes_apart = refl

into_inner-output_example : 1 ∷ 2 ∷ 3 ∷ [] ≡ stream slow slow_laws half
unfolding slow_laws
into_inner-output_example = into_inner-output slow slow_laws 10 half _ _ (omega arith) takes_apart

-- A writer that panics on every write.
abbrev broken : Write (Unit {0})
broken = record { write = λ w b. (panic, w); flush = λ w. (ok tt, w) }

broken_laws : WriteLaws broken
broken_laws = record {
  output = λ w. [];
  interrupts = λ w. 0;
  write_ok = λ w b n w' e. cc;
  write_err = λ w b k w' e. cc;
  flush_output = λ w. refl;
}

abbrev held : BufWriter (Unit {0})
held = record { inner = tt; buf = 1 ∷ []; capacity = 1; panicked = false }

unwinds : write broken 5 held (2 ∷ []) ≡ some (panic, record held { panicked = true })
unfolding program
unwinds = refl

-- The last index of a byte.
last_index : ℕ → Bytes → Option ℕ
last_index c [] = none
last_index c (b ∷ bs) =
    let later = Option.map (λ i. i + 1) (last_index c bs) in
    if b == c then or_first later else later
  where
    or_first : Option ℕ → Option ℕ
    or_first none = some 0
    or_first (some i) = some i

abbrev lines : LineWriter Slow
lines = record { inner = half; need_flush = false }

-- Two bytes and a newline go out with what was buffered; the byte behind them stays.
abbrev lines_after : LineWriter Slow
lines_after = record {
  inner = record {
    inner = (1 ∷ 2 ∷ 3 ∷ 7 ∷ 10 ∷ [], 0);
    buf = 9 ∷ [];
    capacity = 4;
    panicked = false;
  };
  need_flush = false;
}

writes_line : LineWriter.write slow last_index 10 lines (7 ∷ 10 ∷ 9 ∷ []) ≡ some (ok 3, lines_after)
unfolding program last_index
writes_line = refl

line_write-Returned_example :
    Returned slow slow_laws half (λ m. take m (7 ∷ 10 ∷ 9 ∷ [])) (ok 3, lines_after.inner)
line_write-Returned_example =
    line_write-Returned slow slow_laws last_index 10 lines (7 ∷ 10 ∷ 9 ∷ []) (ok 3, lines_after)
      (omega arith) writes_line
