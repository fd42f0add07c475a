-- ===== src/Io/Provided/Ending.antt =====
-- io/mod.rs: `read_to_end` returns, with all that the reader had to deliver.
use mathlib.Core.List.{append-nil, append_assoc}
use mathlib.Core.Path.{subst}
use rust_libstd.Prelude.{
  ℕ, zero, suc, ◌+◌, ◌-◌, ◌≤◌, ◌<◌, ◌≡◌, refl, ◌∙◌, ap, true, leb, ◌==◌, Option, none, some, [],
  ◌++◌, length, take, drop, length-drop, length-take, length-append, take_add, take_all,
  take-append_front, drop-append_front, arith, Bool-cases, inl, inr,
}
use rust_libstd.Io.Error.{Call, ok, err, panic, is_interrupted, is_interrupted_eq}
use rust_libstd.Io.Writer.{Bytes}
use rust_libstd.Io.Reader.{Read, ReadLaws, ReadEnds}
use rust_libstd.Io.Provided.{with_room, end_round, end_loop, read_to_end}
use rust_libstd.Io.Provided.Reading.{Gives}

module _ {R : Type 0} (io : Read R) (laws : ReadLaws io) (limits : ReadEnds io laws) where
  open laws use {pending, read_length, read_ok, read_err}
  open limits use {interrupts, calm, fewer, ends}

  -- Of a call with `p` pending and `got` in the vector: success has appended all of `p`, and counts
  -- from `start`; an error or a panic is one of `read`, and the vector has a first part of `p`.
  abbrev pub Ended : Bytes → Bytes → ℕ → Option (Call ℕ × R × Bytes) → Type 0
  Ended p got start none = ⊥
  Ended p got start (some (ok n, r, out)) =
      (n ≡ length got + length p - start) × ((out ≡ got ++ p) × (pending r ≡ []))
  Ended p got start (some (err e, r, out)) =
      Gives io (err e) × ((t : Bytes) × ((out ≡ got ++ t) × (p ≡ t ++ pending r)))
  Ended p got start (some (panic, r, out)) =
      Gives io panic × ((t : Bytes) × ((rest : Bytes) × ((out ≡ got ++ t) × (p ≡ t ++ rest))))

  Ended-append :
      (p p' got t : Bytes) (start : ℕ) (ran : Option (Call ℕ × R × Bytes))
      → p ≡ t ++ p'
      → Ended p' (got ++ t) start ran
      → Ended p got start ran
  Ended-append p p' got t start none more h = h
  Ended-append p p' got t start (some (ok n, r, out)) more (count, (all, over)) = (
    rw more (omega (arith, count, length-append got t, length-append t p')),
    (all ∙ rw (append_assoc, more) refl, over),
  )
  Ended-append p p' got t start (some (err e, r, out)) more (why, (s, (all, rest))) =
      (why, (t ++ s, (all ∙ append_assoc got t s, more ∙ rw (rest, append_assoc) refl)))
  Ended-append p p' got t start (some (panic, r, out)) more (why, (s, (after, (all, rest)))) =
      (why, (t ++ s, (after, (all ∙ append_assoc got t s, more ∙ rw (rest, append_assoc) refl))))

  end_round-Ended :
      (again : R → Bytes → ℕ → Option (Call ℕ × R × Bytes)) (kept buf : Bytes) (start len : ℕ)
      (r : R) (bound : ℕ)
      → 0 < length buf
      → length kept ≡ len
      → length (pending r) + interrupts r ≤ bound
      → ((r' : R) (v : Bytes) (len' : ℕ)
          → len' ≤ length v
          → length (pending r') + interrupts r' < bound
          → Ended (pending r') (take len' v) start (again r' v len'))
      → (c : Call ℕ × R × Bytes) → io.read r buf ≡ c
      → Ended (pending r) kept start (end_round io again kept start len c)
  end_round-Ended again kept buf start len r bound more size le next (ok zero, r', buf') called =
      let over = ends r buf r' buf' more called in
      let same = (read_ok r buf 0 r' buf' called).1 in
      (rw over (omega (arith, size)), (rw (over, append-nil) refl, cc (same, over)))
  end_round-Ended again kept buf start len r bound more size le next (ok (suc n), r', buf') called =
      let (few, same) = read_ok r buf (suc n) r' buf' called in
      let long : length buf' ≡ length buf = cc (ap (λ c. length c.2) called, read_length r buf) in
      let quiet = calm r buf (suc n) r' buf' called in
      let shorter : suc (length (pending r')) ≤ length (pending r) = omega (
        arith,
        ap length same,
        length-append (take (suc n) buf') (pending r'),
        length-take (suc n) buf',
      ) in
      let cut : take (len + suc n) (kept ++ buf') ≡ kept ++ take (suc n) buf' =
        rw (← size, take_add, take-append_front, drop-append_front) refl in
      Ended-append (pending r) (pending r') kept (take (suc n) buf') start _ same (
        rw (← cut) (
          next r' (kept ++ buf') (len + suc n) (omega (arith, length-append kept buf'))
            (omega arith)))
  end_round-Ended again kept buf start len r bound more size le next (err k, r', buf') called =
      let same = read_err r buf k r' buf' called in
      elim (Bool-cases (is_interrupted k)) [
        | inl retry ↦
            let less = fewer r buf r' buf' (rw (is_interrupted_eq k retry) at called) in
            let cut : take len (kept ++ buf') ≡ kept = rw (← size) (take-append_front kept buf') in
            rw (retry, ← same)
              (subst (λ v. Ended (pending r') v start (again r' (kept ++ buf') len)) cut
                (next r' (kept ++ buf') len (omega (arith, length-append kept buf'))
                  (omega (arith, ap length same))))
        | inr fatal ↦
            rw fatal ((r, (buf, (r', (buf', called)))), ([], (rw append-nil refl, cc same)))
      ]
  end_round-Ended again kept buf start len r bound more size le next (panic, r', buf') called =
      ((r, (buf, (r', (buf', called)))), ([], (pending r, (rw append-nil refl, refl))))

  module _ (spare : ℕ → Bytes) (reserved : (n : ℕ) → 32 ≤ length (spare n)) where
    with_room-take :
        (buf : Bytes) (len : ℕ)
        → len ≤ length buf
        → take len (with_room spare buf len) ≡ take len buf
    with_room-take buf len le = elim (Bool-cases (len == length buf)) [
      | inl filled ↦
          let whole : len ≡ length buf = ground arith in
          rw filled (rw (whole, take-append_front, take_all (length buf) buf (omega arith)) refl)
      | inr room ↦ rw room refl
    ]

    with_room-length :
        (buf : Bytes) (len : ℕ) → len ≤ length buf → len < length (with_room spare buf len)
    with_room-length buf len le = elim (Bool-cases (len == length buf)) [
      | inl filled ↦ rw filled (ground (arith, length-append buf (spare len), reserved len))
      | inr room ↦ rw room (ground arith)
    ]

    end_loop-Ended :
        (fuel start : ℕ) (r : R) (buf : Bytes) (len : ℕ)
        → len ≤ length buf
        → length (pending r) + interrupts r < fuel
        → Ended (pending r) (take len buf) start (end_loop io spare fuel start r buf len)
    unfolding end_loop
    end_loop-Ended zero start r buf len le h = absurd (omega arith)
    end_loop-Ended (suc fuel) start r buf len le h =
        let room = with_room spare buf len in
        let long = with_room-length buf len le in
        let fits : leb len (length room) ≡ true = ground arith in
        rw fits (
          rw (with_room-take buf len le) (
            end_round-Ended (end_loop io spare fuel start) (take len buf) (drop len room) start len
              r fuel (omega (arith, length-drop len room)) (omega (arith, length-take len buf))
              (omega arith) (λ r' v n few less. end_loop-Ended fuel start r' v n few less) _ refl))

    -- Over a reader that keeps its contract, ends and is interrupted finitely often, with spare
    -- capacity of at least 32 bytes at each reservation and fuel above the pending bytes and
    -- interruptions, read_to_end returns: with success it has appended all that was pending and
    -- returns its length; an error or a panic is one of read, and the vector has a first part of
    -- what was pending.
    pub read_to_end-Ended :
        (fuel : ℕ) (r : R) (buf : Bytes)
        → length (pending r) + interrupts r < fuel
        → Ended (pending r) buf (length buf) (read_to_end io spare fuel r buf)
    unfolding read_to_end
    read_to_end-Ended fuel r buf h =
        let start = end_loop-Ended fuel (length buf) r buf (length buf) (omega arith) h in
        rw (take_all (length buf) buf (omega arith)) at start
