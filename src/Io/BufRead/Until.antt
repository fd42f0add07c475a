-- ===== src/Io/BufRead/Until.antt =====
-- io/mod.rs: `read_until` returns, with the bytes up to the first delimiter.
use mathlib.Core.List.{append-nil, append_assoc}
use rust_libstd.Prelude.{
  ℕ, zero, suc, ◌+◌, ◌%◌, ◌^◌, ◌≤◌, ◌<◌, ◌≡◌, ◌⊎◌, refl, sym, ◌∙◌, ap, true, false, leb, ◌==◌,
  Option, none, some, [], ◌∷◌, ◌++◌, length, take, length-append, length-take, take_add,
  take-append_front, take-append_le, take-append-drop, drop-append_front, take_all, arith,
  Bool-cases, inl, inr,
}
use rust_libstd.Prelude.Words.{add64}
use rust_libstd.Io.Error.{Call, ok, err, panic, is_interrupted, is_interrupted_eq}
use rust_libstd.Io.Writer.{Bytes}
use rust_libstd.Io.BufRead.{
  BufRead, BufReadLaws, free, FindsFirst, ReadUntil, until_found, until_round, until_loop,
  read_until,
}

free-append :
    (d : ℕ) (xs ys : Bytes) → free d xs ≡ true → free d ys ≡ true → free d (xs ++ ys) ≡ true
free-append d [] ys h k = k
free-append d (x ∷ xs) ys h k = ground (arith, free-append d xs ys)

-- The bytes up to and with the first delimiter.
abbrev pub Line : ℕ → Bytes → Type 0
Line d t = (s : Bytes) × ((t ≡ s ++ d ∷ []) × (free d s ≡ true))

Line-append : (d : ℕ) (xs ys : Bytes) → free d xs ≡ true → Line d ys → Line d (xs ++ ys)
Line-append d xs ys h (s, (same, none_in)) =
    (xs ++ s, (rw (same, append_assoc) refl, free-append d xs s h none_in))

module _ {R : Type 0} (io : BufRead R) (laws : BufReadLaws io) (memchr : ℕ → Bytes → Option ℕ)
    (finds : FindsFirst memchr) where
  open laws use {pending, interrupts, fill_ok, consumed, ends, fill_err, fewer}

  abbrev pub Fills : Call Bytes → Type 0
  Fills c = (r : R) × ((r' : R) × (io.fill_buf r ≡ (c, r')))

  -- Of a call with `p` pending and `got` in the vector: success appends a line, or all of `p` where
  -- it has no delimiter, and counts on from `start`; an error or a panic is one of `fill_buf`, and
  -- what is appended has no delimiter.
  abbrev pub Until : ℕ → Bytes → Bytes → ℕ → ReadUntil R → Type 0
  Until d p got start none = ⊥
  Until d p got start (some (ok n, r, out)) =
      (t : Bytes) × ((out ≡ got ++ t)
        × ((p ≡ t ++ pending r)
            × ((n ≡ (start + length t) % 2 ^ 64)
                × (Line d t ⊎ ((free d t ≡ true) × (pending r ≡ []))))))
  Until d p got start (some (err e, r, out)) =
      Fills (err e)
      × ((t : Bytes) × ((out ≡ got ++ t) × ((p ≡ t ++ pending r) × (free d t ≡ true))))
  Until d p got start (some (panic, r, out)) =
      Fills panic × ((t : Bytes) × ((out ≡ got ++ t) × (free d t ≡ true)))

  count_on : (start a b n : ℕ) → n ≡ (add64 start a + b) % 2 ^ 64 → n ≡ (start + (a + b)) % 2 ^ 64
  count_on start a b n h = omega (arith, h)

  Until-append :
      (d : ℕ) (p p' got s : Bytes) (start : ℕ) (ran : ReadUntil R)
      → p ≡ s ++ p'
      → free d s ≡ true
      → Until d p' (got ++ s) (add64 start (length s)) ran
      → Until d p got start ran
  Until-append d p p' got s start none more clear h = h
  Until-append d p p' got s start (some (ok n, r, out)) more clear
        (t, (all, (rest, (count, why)))) =
      (
        s ++ t,
        (
          all ∙ append_assoc got s t,
          (
            more ∙ rw (rest, append_assoc) refl,
            (
              rw length-append (count_on start (length s) (length t) n count),
              elim why [
                | inl line ↦ inl (Line-append d s t clear line)
                | inr (none_in, over) ↦ inr (free-append d s t clear none_in, over)
              ],
            ),
          ),
        ),
      )
  Until-append d p p' got s start (some (err e, r, out)) more clear
        (why, (t, (all, (rest, none_in)))) =
      (
        why,
        (
          s ++ t,
          (
            all ∙ append_assoc got s t,
            (more ∙ rw (rest, append_assoc) refl, free-append d s t clear none_in),
          ),
        ),
      )
  Until-append d p p' got s start (some (panic, r, out)) more clear (why, (t, (all, none_in))) =
      (why, (s ++ t, (all ∙ append_assoc got s t, free-append d s t clear none_in)))

  -- What a `consume` of `n` bytes of the buffer leaves.
  taken :
      (r r' : R) (b : Bytes) (n : ℕ)
      → io.fill_buf r ≡ (ok b, r')
      → n ≤ length b
      → pending r ≡ take n b ++ pending (io.consume n r')
  taken r r' b n called le =
      let (rest, same) = fill_ok r b r' called in
      let front : take n (pending r) ≡ take n b = rw same (take-append_le n b rest le) in
      sym (take-append-drop n (pending r)) ∙ rw (front, (consumed r b r' n called le).0) refl

  taken_all :
      (r r' : R) (b : Bytes)
      → io.fill_buf r ≡ (ok b, r')
      → pending r ≡ b ++ pending (io.consume (length b) r')
  taken_all r r' b called =
      taken r r' b (length b) called (omega arith)
      ∙ ap (λ t. t ++ pending (io.consume (length b) r')) (take_all (length b) b (omega arith))

  until_line :
      (d : ℕ) (b s rest : Bytes) (i : ℕ)
      → b ≡ s ++ d ∷ rest
      → length s ≡ i
      → (i + 1 ≤ length b) × (take (i + 1) b ≡ s ++ d ∷ [])
  until_line d b s rest i same size =
      rw (same, ← size)
        (
          omega (arith, length-append s (d ∷ rest)),
          rw (take_add, take-append_front, drop-append_front) refl,
        )

  until_found-Until :
      (again : R → Bytes → ℕ → ReadUntil R) (d : ℕ) (got : Bytes) (start : ℕ) (r r' : R) (b : Bytes)
      (bound : ℕ)
      → io.fill_buf r ≡ (ok b, r')
      → length (pending r) + interrupts r ≤ bound
      → ((next : R) (out : Bytes) (count : ℕ)
          → length (pending next) + interrupts next < bound
          → Until d (pending next) out count (again next out count))
      → (m : Option ℕ) → memchr d b ≡ m
      → Until d (pending r) got start (until_found io memchr again r' got start b m)
  until_found-Until again d got start r r' b bound called le next (some i) m =
      let (s, (rest, (same, (size, clear)))) = finds.found d b i m in
      let (few, line) = until_line d b s rest i same size in
      let fits : leb (i + 1) (length b) ≡ true = ground arith in
      rw fits (
        take (i + 1) b,
        (
          refl,
          (
            taken r r' b (i + 1) called few,
            (omega (arith, length-take (i + 1) b, few), inl (s, (line, clear))),
          ),
        ),
      )
  until_found-Until again d got start r r' [] bound called le next none m =
      let over = ends r r' called in
      (
        [],
        (
          refl,
          (
            taken r r' [] 0 called (omega arith),
            (omega arith, inr (refl, cc (taken r r' [] 0 called (omega arith), over))),
          ),
        ),
      )
  until_found-Until again d got start r r' (x ∷ xs) bound called le next none m =
      let b = x ∷ xs in
      let some_used : (length b == 0) ≡ false = ground arith in
      let more = taken_all r r' b called in
      let quiet = (consumed r b r' (length b) called (omega arith)).1 in
      rw some_used (
        Until-append d (pending r) (pending (io.consume (length b) r')) got b start _ more
          (finds.missing d b m)
          (next (io.consume (length b) r') (got ++ b) (add64 start (length b)) (
            omega (
              arith,
              quiet,
              ap length more,
              length-append b (pending (io.consume (length b) r')),
            ))))

  until_round-Until :
      (again : R → Bytes → ℕ → ReadUntil R) (d : ℕ) (got : Bytes) (start : ℕ) (r : R) (bound : ℕ)
      → length (pending r) + interrupts r ≤ bound
      → ((next : R) (out : Bytes) (count : ℕ)
          → length (pending next) + interrupts next < bound
          → Until d (pending next) out count (again next out count))
      → (c : Call Bytes × R) → io.fill_buf r ≡ c
      → Until d (pending r) got start (until_round io memchr again d got start c)
  until_round-Until again d got start r bound le next (ok b, r') called =
      until_found-Until again d got start r r' b bound called le next (memchr d b) refl
  until_round-Until again d got start r bound le next (err k, r') called =
      let same = fill_err r k r' called in
      elim (Bool-cases (is_interrupted k)) [
        | inl retry ↦
            let less = fewer r r' (rw (is_interrupted_eq k retry) at called) in
            rw (retry, ← same) (next r' got start (omega (arith, ap length same)))
        | inr fatal ↦ rw fatal ((r, (r', called)), ([], (rw append-nil refl, (cc same, refl))))
      ]
  until_round-Until again d got start r bound le next (panic, r') called =
      ((r, (r', called)), ([], (rw append-nil refl, refl)))

  until_loop-Until :
      (fuel d : ℕ) (r : R) (got : Bytes) (start : ℕ)
      → length (pending r) + interrupts r < fuel
      → Until d (pending r) got start (until_loop io memchr fuel d r got start)
  unfolding until_loop
  until_loop-Until zero d r got start h = absurd (omega arith)
  until_loop-Until (suc fuel) d r got start h =
      until_round-Until (until_loop io memchr fuel d) d got start r fuel (omega arith)
        (λ next out count le. until_loop-Until fuel d next out count le) _ refl

  -- Over a BufRead that keeps its contract and a memchr that finds the first occurrence, with fuel
  -- above the pending bytes and interruptions, read_until returns: with success it has appended the
  -- pending bytes up to and with the first delimiter, or all of them where there is none, and
  -- returns their number in 64 bits; an error or a panic is one of fill_buf, and what is appended
  -- has no delimiter.
  pub read_until-Until :
      (fuel : ℕ) (r : R) (d : ℕ) (buf : Bytes)
      → length (pending r) + interrupts r < fuel
      → Until d (pending r) buf 0 (read_until io memchr fuel r d buf)
  unfolding read_until
  read_until-Until fuel r d buf h = until_loop-Until fuel d r buf 0 h
