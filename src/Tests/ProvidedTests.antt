-- ===== src/Tests/ProvidedTests.antt =====
-- io/mod.rs and io/util.rs: a reader that gives two bytes at a time and is interrupted at first, runs
-- of the provided methods over it, and the theorems at it.
use rust_libstd.Prelude.{
  ℕ, zero, suc, ◌≤◌, ◌<◌, ◌≡◌, ◌⊎◌, inl, inr, refl, true, ◌==◌, if◌then◌else◌, Option, none, some,
  [], ◌∷◌, ◌++◌, length, take, drop, min, replicate, length-replicate, length-append, length-take,
  length-drop, take-append_le, take-take, take_all, take-append-drop, ◌∙◌, ap, Bool-cases,
  Option-cases, arith,
}
use rust_libstd.Io.Error.{interrupted, unexpected_eof, Call, ok, err}
use rust_libstd.Io.Writer.{Bytes, Write, WriteLaws}
use rust_libstd.Io.Reader.{Read, ReadLaws, ReadEnds}
use rust_libstd.Io.Reader.Contract.{Delivers, contract_laws, contract_ends}
use mathlib.Core.List.{append-nil}
use rust_libstd.Io.Provided.Writing.{Written, write_all-Written}
use rust_libstd.Io.Provided.Reading.{Filled, read_exact-Filled}
use rust_libstd.Io.Provided.Ending.{Ended, read_to_end-Ended}
use rust_libstd.Io.Provided.Copying.{Copied, copy-Copied}
use rust_libstd.Io.Adapters.{chain, chain_reader, Take, take_read}
use rust_libstd.Io.Adapters.Chaining.{chain_laws, chain_ends, read_to_end-chain}
use rust_libstd.Io.Adapters.Limited.{take_pending, take_interrupts, take_read-Delivers}
use rust_libstd.Io.BufRead.{BufRead, BufReadLaws, FindsFirst, free, read_until}
use rust_libstd.Io.BufRead.Until.{Until, read_until-Until}
use rust_libstd.Io.Provided.{
  write_all, read_exact, exact_loop, read_to_end, end_loop, copy, read_one_byte, default_buf_size,
}

-- What is left, and how often the reader will still be interrupted.
abbrev Slow : Type 0
Slow = Bytes × ℕ

abbrev step_of : Bytes → Bytes → ℕ
step_of r buf = min 2 (min (length r) (length buf))

abbrev slow_read : Slow → Bytes → Call ℕ × Slow × Bytes
slow_read (r, suc n) buf = (err interrupted, (r, n), buf)
slow_read (r, zero) buf = (
  ok (step_of r buf),
  (drop (step_of r buf) r, 0),
  take (step_of r buf) r ++ drop (step_of r buf) buf,
)

abbrev slow : Read Slow
slow = record { read = slow_read }

abbrev left : Slow → Bytes
left (r, n) = r

abbrev calls : Slow → ℕ
calls (r, n) = n

some_moved : (r buf : Bytes) → (0 < step_of r buf) ⊎ ((length buf ≡ 0) ⊎ (r ≡ []))
some_moved [] buf = inr (inr refl)
some_moved (x ∷ r) [] = inr (inl refl)
some_moved (x ∷ r) (b ∷ buf) = inl (omega arith)

front_of : (k : ℕ) (r buf : Bytes) → k ≤ length r → take k (take k r ++ drop k buf) ≡ take k r
front_of k r buf le =
    take-append_le k (take k r) (drop k buf) (omega (arith, length-take k r))
    ∙ take-take k k r (omega arith)

slow_kept : (r : Slow) (buf : Bytes) → Delivers left calls r buf (slow_read r buf)
slow_kept (r, suc n) buf = (refl, (refl, omega arith))
slow_kept (r, zero) buf =
    let k = step_of r buf in
    (
      omega (arith, length-append (take k r) (drop k buf), length-take k r, length-drop k buf),
      (
        omega arith,
        (
          rw (front_of k r buf (omega arith), take-append-drop) refl,
          (omega arith, some_moved r buf),
        ),
      ),
    )

abbrev laws : ReadLaws slow
laws = contract_laws left calls slow slow_kept

abbrev ends : ReadEnds slow laws
ends = contract_ends left calls slow slow_kept

-- A writer that takes all.
abbrev greedy : Write Bytes
greedy = record { write = λ w buf. (ok (length buf), w ++ buf); flush = λ w. (ok tt, w) }

abbrev greedy_laws : WriteLaws greedy
greedy_laws = record {
  output = λ w. w;
  interrupts = λ w. 0;
  write_ok = λ w buf n w' e.
      let count : length buf ≡ n = cc in
      let after : w ++ buf ≡ w' = cc in
      rw (← after, ← count)
        (omega arith, rw (take_all (length buf) buf (omega arith)) refl, omega arith);
  write_err = λ w buf e w' h. cc;
  flush_output = λ w. refl;
}

abbrev text : Slow
text = (1 ∷ 2 ∷ 3 ∷ 10 ∷ 5 ∷ [], 1)

abbrev zeros : ℕ → Bytes
zeros n = replicate 32 0

exact : read_exact slow 5 text (0 ∷ 0 ∷ 0 ∷ []) ≡ some (ok tt, (10 ∷ 5 ∷ [], 0), 1 ∷ 2 ∷ 3 ∷ [])
unfolding read_exact exact_loop
exact = refl

short :
    read_exact slow 9 text (replicate 6 0)
    ≡ some (err unexpected_eof, ([], 0), 1 ∷ 2 ∷ 3 ∷ 10 ∷ 5 ∷ 0 ∷ [])
unfolding read_exact exact_loop
short = refl

whole : read_to_end slow zeros 7 text (9 ∷ []) ≡ some (ok 5, ([], 0), 9 ∷ 1 ∷ 2 ∷ 3 ∷ 10 ∷ 5 ∷ [])
unfolding read_to_end end_loop
whole = refl

one_byte : read_one_byte slow 2 text ≡ some (some (ok 1), (2 ∷ 3 ∷ 10 ∷ 5 ∷ [], 0))
unfolding read_one_byte
one_byte = refl

read_exact-Filled_example :
    Filled slow laws ends (left text) [] 3 (read_exact slow 5 text (0 ∷ 0 ∷ 0 ∷ []))
read_exact-Filled_example = read_exact-Filled slow laws ends 5 text (0 ∷ 0 ∷ 0 ∷ []) (omega arith)

read_to_end-Ended_example :
    Ended slow laws ends (left text) (9 ∷ []) 1 (read_to_end slow zeros 7 text (9 ∷ []))
read_to_end-Ended_example =
    read_to_end-Ended slow laws ends zeros (λ n. omega arith) 7 text (9 ∷ []) (omega arith)

write_all-Written_example :
    Written greedy greedy_laws (9 ∷ []) (1 ∷ 2 ∷ []) (write_all greedy 3 (9 ∷ []) (1 ∷ 2 ∷ []))
write_all-Written_example =
    write_all-Written greedy greedy_laws 3 (9 ∷ []) (1 ∷ 2 ∷ []) (omega arith)

read_to_end-chain_example :
    Ended
      (chain_reader slow slow)
      (chain_laws slow laws ends slow laws ends)
      (chain_ends slow laws ends slow laws ends)
      (left text ++ left text)
      []
      0
      (read_to_end (chain_reader slow slow) zeros 13 (chain text text) [])
read_to_end-chain_example =
    read_to_end-chain slow laws ends slow laws ends zeros (λ n. omega arith) 13 text text []
      (omega arith)

abbrev three : Take Slow
three = record { inner = text; limit = 3 }

take_read-Delivers_example :
    Delivers
      (take_pending slow laws ends)
      (take_interrupts slow laws ends)
      three
      (0 ∷ 0 ∷ [])
      (take_read slow three (0 ∷ 0 ∷ []))
take_read-Delivers_example = take_read-Delivers slow laws ends three (0 ∷ 0 ∷ []) (omega arith)

copy-Copied_example :
    Copied slow laws ends greedy greedy_laws
      (left text)
      (9 ∷ [])
      0
      (copy slow greedy (replicate default_buf_size 0) 8 text (9 ∷ []))
copy-Copied_example =
    copy-Copied slow laws ends greedy greedy_laws (replicate default_buf_size 0) 8 text (9 ∷ [])
      (length-replicate {A = ℕ} default_buf_size 0) (omega arith)

-- A slice as a `BufRead`, and a linear memchr.
abbrev slice_bufread : BufRead Bytes
slice_bufread = record { fill_buf = λ r. (ok r, r); consume = λ n r. drop n r }

abbrev slice_bufread_laws : BufReadLaws slice_bufread
slice_bufread_laws = record {
  pending = λ r. r;
  interrupts = λ r. 0;
  fill_ok = λ r b r' e. ([], rw append-nil (cc e));
  consumed = λ r b r' n e le. (cc e, omega arith);
  ends = λ r r' e. cc e;
  fill_err = λ r e r' h. cc;
  fewer = λ r r' h. cc;
}

abbrev next_index : Option ℕ → Option ℕ
next_index none = none
next_index (some i) = some (suc i)

abbrev linear : ℕ → Bytes → Option ℕ
linear d [] = none
linear d (x ∷ xs) = if x == d then some 0 else next_index (linear d xs)

linear_found :
    (d : ℕ) (b : Bytes) (i : ℕ)
    → linear d b ≡ some i
    → (s : Bytes) × ((rest : Bytes) × ((b ≡ s ++ d ∷ rest) × ((length s ≡ i) × (free d s ≡ true))))
linear_found d [] i h = cc
linear_found d (x ∷ xs) i h = elim (Bool-cases (x == d)) [
  | inl here ↦
      let same : x ≡ d = ground arith in
      let count : 0 ≡ i = cc (rw here at h) in ([], (xs, (rw same refl, (count, refl))))
  | inr behind ↦ elim (Option-cases (linear d xs)) [
    | inl missed ↦ cc (rw (behind, missed) at h)
    | inr (j, later) ↦
        let (s, (rest, (same, (size, clear)))) = linear_found d xs j later in
        let count : suc j ≡ i = cc (rw (behind, later) at h) in
        (x ∷ s, (rest, (ap (◌∷◌ x) same, (omega (arith, size, count), rw behind clear))))
  ]
]

linear_missing : (d : ℕ) (b : Bytes) → linear d b ≡ none → free d b ≡ true
linear_missing d [] h = refl
linear_missing d (x ∷ xs) h = elim (Bool-cases (x == d)) [
  | inl here ↦ cc (rw here at h)
  | inr behind ↦ elim (Option-cases (linear d xs)) [
    | inl missed ↦ rw behind (linear_missing d xs missed)
    | inr (j, later) ↦ cc (rw (behind, later) at h)
  ]
]

linear_FindsFirst : FindsFirst linear
linear_FindsFirst = record { found = linear_found; missing = linear_missing }

read_until-Until_example :
    Until slice_bufread slice_bufread_laws linear linear_FindsFirst 10
      (left text)
      []
      0
      (read_until slice_bufread linear 6 (left text) 10 [])
read_until-Until_example =
    read_until-Until slice_bufread slice_bufread_laws linear linear_FindsFirst 6 (left text) 10 []
      (omega arith)
