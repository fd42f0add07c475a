-- ===== src/Io/Provided/Reading.antt =====
-- io/mod.rs: `read_exact` returns, and what it has read then.
use mathlib.Core.List.{append_assoc}
use rust_libstd.Prelude.{
  ℕ, zero, suc, ◌+◌, ◌≤◌, ◌<◌, ◌≡◌, ◌⊎◌, refl, ◌∙◌, ap, true, leb, Option, none, some, [], ◌∷◌,
  ◌++◌, length, take, drop, length-drop, length-take, length-append, take-append_front, arith,
  Bool-cases, inl, inr,
}
use native.Mathlib.Nat.{add-zero}
use rust_libstd.Io.Error.{
  ErrorKind, unexpected_eof, Call, ok, err, panic, is_interrupted, is_interrupted_eq,
}
use rust_libstd.Io.Writer.{Bytes}
use rust_libstd.Io.Reader.{Read, ReadLaws, ReadEnds}
use rust_libstd.Io.Provided.{exact_round, exact_loop, read_exact}

module _ {R : Type 0} (io : Read R) where
  -- Some call of `read` does that.
  abbrev pub Gives : Call ℕ → Type 0
  Gives c =
      (r : R) × ((buf : Bytes) × ((r' : R) × ((buf' : Bytes) × (io.read r buf ≡ (c, r', buf')))))

module _ {R : Type 0} (io : Read R) (laws : ReadLaws io) (limits : ReadEnds io laws) where
  open laws use {pending, read_length, read_ok, read_err}
  open limits use {interrupts, calm, fewer, ends}

  -- Of a call to read `len` bytes with `p` pending, where `filled` are read already: success has the
  -- next bytes; an error is one of `read`, or `UnexpectedEof` where fewer are pending.
  abbrev pub Filled : Bytes → Bytes → ℕ → Option (Call (Unit {0}) × R × Bytes) → Type 0
  Filled p filled len none = ⊥
  Filled p filled len (some (ok _, r, out)) =
      (length out ≡ length filled + len) × (filled ++ p ≡ out ++ pending r)
  Filled p filled len (some (err e, r, out)) =
      (Gives io (err e) ⊎ ((e ≡ unexpected_eof) × ((length p < len) × (pending r ≡ []))))
      × ((length out ≡ length filled + len)
          × ((n : ℕ) × ((n ≤ len) × (filled ++ p ≡ take (length filled + n) out ++ pending r))))
  Filled p filled len (some (panic, r, out)) = Gives io panic

  Filled-append :
      (p p' filled t : Bytes) (len m : ℕ) (ran : Option (Call (Unit {0}) × R × Bytes))
      → p ≡ t ++ p'
      → length t + m ≡ len
      → Filled p' (filled ++ t) m ran
      → Filled p filled len ran
  Filled-append p p' filled t len m none more add h = h
  Filled-append p p' filled t len m (some (ok _, r, out)) more add (full, h) =
      (omega (arith, full, length-append filled t), rw more (rw (← append_assoc) h))
  Filled-append p p' filled t len m (some (err e, r, out)) more add (why, (full, (n, (few, h)))) = (
    elim why [
      | inl gave ↦ inl gave
      | inr (eof, (short, over)) ↦ inr (eof, (rw more (omega (arith, length-append t p')), over))
    ],
    (
      omega (arith, full, length-append filled t),
      (
        length t + n,
        (
          omega arith,
          rw more (
              rw (← append_assoc)
                (h ∙ ap (λ k. take k out ++ pending r) (omega (arith, length-append filled t)))),
        ),
      ),
    ),
  )
  Filled-append p p' filled t len m (some (panic, r, out)) more add h = h

  -- An end of the loop at the bytes that are filled.
  Filled-here :
      (filled buf : Bytes) (r r' : R) (e : ErrorKind)
      → (Gives io (err e)
          ⊎ ((e ≡ unexpected_eof) × ((length (pending r) < length buf) × (pending r' ≡ []))))
      → (buf' : Bytes) → length buf' ≡ length buf
      → pending r ≡ pending r'
      → Filled (pending r) filled (length buf) (some (err e, r', filled ++ buf'))
  Filled-here filled buf r r' e why buf' same kept = (
    why,
    (
      omega (arith, length-append filled buf'),
      (0, (omega arith, rw (add-zero, take-append_front, kept) refl)),
    ),
  )

  exact_round-Filled :
      (again : R → Bytes → Bytes → Option (Call (Unit {0}) × R × Bytes)) (filled buf : Bytes)
      (r : R) (bound : ℕ)
      → 0 < length buf
      → length buf + interrupts r ≤ bound
      → ((r' : R) (done rest : Bytes)
          → length rest + interrupts r' < bound
          → Filled (pending r') done (length rest) (again r' done rest))
      → (c : Call ℕ × R × Bytes) → io.read r buf ≡ c
      → Filled (pending r) filled (length buf) (exact_round io again filled c)
  exact_round-Filled again filled buf r bound more le next (ok zero, r', buf') called =
      let over = ends r buf r' buf' more called in
      let same = (read_ok r buf 0 r' buf' called).1 in
      Filled-here filled buf r r' unexpected_eof
        (inr (refl, (rw over (omega arith), cc (same, over)))) buf'
        (cc (ap (λ c. length c.2) called, read_length r buf)) same
  exact_round-Filled again filled buf r bound more le next (ok (suc n), r', buf') called =
      let (few, same) = read_ok r buf (suc n) r' buf' called in
      let long : length buf' ≡ length buf = cc (ap (λ c. length c.2) called, read_length r buf) in
      let fits : leb (suc n) (length buf') ≡ true = ground arith in
      let quiet = calm r buf (suc n) r' buf' called in
      rw fits (
        Filled-append (pending r) (pending r') filled (take (suc n) buf') (length buf)
          (length (drop (suc n) buf')) _ same
          (omega (arith, length-take (suc n) buf', length-drop (suc n) buf'))
          (next r' (filled ++ take (suc n) buf') (drop (suc n) buf')
            (omega (arith, length-drop (suc n) buf'))))
  exact_round-Filled again filled buf r bound more le next (err k, r', buf') called =
      let same = read_err r buf k r' buf' called in
      let long : length buf' ≡ length buf = cc (ap (λ c. length c.2) called, read_length r buf) in
      elim (Bool-cases (is_interrupted k)) [
        | inl retry ↦
            let less = fewer r buf r' buf' (rw (is_interrupted_eq k retry) at called) in
            rw (retry, ← same, ← long) (next r' filled buf' (omega arith))
        | inr fatal ↦ rw fatal (
            Filled-here filled buf r r' k (inl (r, (buf, (r', (buf', called))))) buf' long
              (cc same))
      ]
  exact_round-Filled again filled buf r bound more le next (panic, r', buf') called =
      (r, (buf, (r', (buf', called))))

  exact_loop-Filled :
      (fuel : ℕ) (r : R) (filled buf : Bytes)
      → length buf + interrupts r < fuel
      → Filled (pending r) filled (length buf) (exact_loop io fuel r filled buf)
  unfolding exact_loop
  exact_loop-Filled zero r filled buf h = absurd (omega arith)
  exact_loop-Filled (suc fuel) r filled [] h = (omega arith, refl)
  exact_loop-Filled (suc fuel) r filled (b ∷ buf) h =
      exact_round-Filled (exact_loop io fuel) filled (b ∷ buf) r fuel (omega arith) (omega arith)
        (λ r' done rest le. exact_loop-Filled fuel r' done rest le) _ refl

  -- Over a reader that keeps its contract, ends and is interrupted finitely often, with fuel above
  -- the length of the buffer and the interruptions, read_exact returns: with success it has filled
  -- the buffer with the next pending bytes; an error is one of read, or UnexpectedEof where fewer
  -- bytes were pending than asked, and then none is left.
  pub read_exact-Filled :
      (fuel : ℕ) (r : R) (buf : Bytes)
      → length buf + interrupts r < fuel
      → Filled (pending r) [] (length buf) (read_exact io fuel r buf)
  unfolding read_exact
  read_exact-Filled fuel r buf h = exact_loop-Filled fuel r [] buf h
