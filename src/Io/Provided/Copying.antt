-- ===== src/Io/Provided/Copying.antt =====
-- io/util.rs: `copy` returns, and what it has written then.
use mathlib.Core.List.{append-nil, append_assoc}
use mathlib.Core.Path.{subst}
use rust_libstd.Prelude.{
  ℕ, zero, suc, ◌+◌, ◌%◌, ◌^◌, ◌≤◌, ◌<◌, ◌≡◌, ◌⊎◌, refl, ◌∙◌, ap, true, leb, Option, none, some, [],
  ◌++◌, length, take, length-take, length-append, take-append-drop, drop, arith, Bool-cases, inl,
  inr,
}
use rust_libstd.Prelude.Words.{add64}
use rust_libstd.Io.Error.{Call, ok, err, panic, is_interrupted, is_interrupted_eq}
use rust_libstd.Io.Writer.{Bytes, Write, WriteLaws}
use rust_libstd.Io.Reader.{Read, ReadLaws, ReadEnds}
use rust_libstd.Io.Provided.{
  Copies, write_all, copy_written, copy_round, copy_loop, copy, default_buf_size,
}
use rust_libstd.Io.Provided.Writing.{Refused, Writes, Written, write_all-Written, write_all-calm}
use rust_libstd.Io.Provided.Reading.{Gives}

module _ {R W : Type 0} (io : Read R) (laws : ReadLaws io) (limits : ReadEnds io laws)
    (io' : Write W) (laws' : WriteLaws io') where
  -- Of a call with `p` pending, to a writer that has accepted `before`: success has written all of
  -- `p`, and counts on from `start`; an error is one of `read`, and what was read is written, or one
  -- of `write_all`, and some bytes that were read are lost.
  abbrev pub Copied : Bytes → Bytes → ℕ → Copies R W → Type 0
  Copied p before start none = ⊥
  Copied p before start (some (ok n, r, w)) =
      (n ≡ (start + length p) % 2 ^ 64) × ((laws'.output w ≡ before ++ p) × (laws.pending r ≡ []))
  Copied p before start (some (err e, r, w)) =
      (t : Bytes) × ((lost : Bytes) × ((laws'.output w ≡ before ++ t)
          × ((p ≡ t ++ (lost ++ laws.pending r))
              × ((Gives io (err e) × (lost ≡ [])) ⊎ Refused io' laws' e))))
  Copied p before start (some (panic, r, w)) = Gives io panic ⊎ Writes io' laws' panic

  count_on : (start a b n : ℕ) → n ≡ (add64 start a + b) % 2 ^ 64 → n ≡ (start + (a + b)) % 2 ^ 64
  count_on start a b n h = omega (arith, h)

  Copied-append :
      (p p' before t : Bytes) (start : ℕ) (ran : Copies R W)
      → p ≡ t ++ p'
      → Copied p' (before ++ t) (add64 start (length t)) ran
      → Copied p before start ran
  Copied-append p p' before t start none more h = h
  Copied-append p p' before t start (some (ok n, r, w)) more (count, (all, over)) = (
    rw (more, length-append) (count_on start (length t) (length p') n count),
    (all ∙ rw (append_assoc, more) refl, over),
  )
  Copied-append p p' before t start (some (err e, r, w)) more (s, (lost, (all, (rest, why)))) =
      (t ++ s, (lost, (all ∙ append_assoc before t s, (more ∙ rw (rest, append_assoc) refl, why))))
  Copied-append p p' before t start (some (panic, r, w)) more why = why

  copy_written-Copied :
      (again : W → Copies R W) (r : R) (w : W) (p p' t : Bytes) (start : ℕ)
      → p ≡ t ++ p'
      → laws.pending r ≡ p'
      → (c : Option (Call (Unit {0}) × W))
      → ((w' : W)
          → c ≡ some (ok tt, w')
          → Copied p' (laws'.output w') (add64 start (length t)) (again w'))
      → Written io' laws' (laws'.output w) t c
      → Copied p (laws'.output w) start (copy_written io io' again r c)
  copy_written-Copied again r w p p' t start more same none next h = absurd h
  copy_written-Copied again r w p p' t start more same (some (ok _, w')) next h =
      Copied-append p p' (laws'.output w) t start (again w') more
        (subst (λ out. Copied p' out (add64 start (length t)) (again w')) h (next w' refl))
  copy_written-Copied again r w p p' t start more same (some (err e, w')) next
        (why, (n, (few, out))) =
      (
        take n t,
        (drop n t, (out, (more ∙ rw (same, ← append_assoc, take-append-drop) refl, inr why))),
      )
  copy_written-Copied again r w p p' t start more same (some (panic, w')) next h = inr h

  copy_round-Copied :
      (again : R → W → Bytes → ℕ → Copies R W) (fuel : ℕ) (r : R) (w : W) (buf : Bytes)
      (written : ℕ)
      → 0 < length buf
      → written < 2 ^ 64
      → length (laws.pending r) + limits.interrupts r + laws'.interrupts w < fuel
      → ((r' : R) (w' : W) (buf' : Bytes) (written' : ℕ)
          → 0 < length buf'
          → written' < 2 ^ 64
          → length (laws.pending r') + limits.interrupts r' + laws'.interrupts w' + 1 < fuel
          → Copied (laws.pending r') (laws'.output w') written' (again r' w' buf' written'))
      → (c : Call ℕ × R × Bytes) → io.read r buf ≡ c
      → Copied (laws.pending r) (laws'.output w) written (copy_round io io' again fuel w written c)
  copy_round-Copied again fuel r w buf written more small le next (ok zero, r', buf') called =
      let over = limits.ends r buf r' buf' more called in
      let same = (laws.read_ok r buf 0 r' buf' called).1 in
      (rw over (omega (arith, small)), (rw (over, append-nil) refl, cc (same, over)))
  copy_round-Copied again fuel r w buf written more small le next (ok (suc n), r', buf') called =
      let (few, same) = laws.read_ok r buf (suc n) r' buf' called in
      let long : length buf' ≡ length buf =
        cc (ap (λ c. length c.2) called, laws.read_length r buf) in
      let fits : leb (suc n) (length buf') ≡ true = ground arith in
      let quiet = limits.calm r buf (suc n) r' buf' called in
      let t = take (suc n) buf' in
      let size : length t ≡ suc n = omega (arith, length-take (suc n) buf') in
      let shorter : suc (length (laws.pending r')) ≤ length (laws.pending r) =
        omega (arith, ap length same, length-append t (laws.pending r')) in
      let chunk : length t ≤ length (laws.pending r) =
        omega (arith, ap length same, length-append t (laws.pending r')) in
      rw fits (
        copy_written-Copied (λ w'. again r' w' buf' (add64 written (suc n))) r' w (laws.pending r)
          (laws.pending r') t written same refl (write_all io' fuel w t)
          (λ w' sent. rw size (
            next r' w' buf' (add64 written (suc n)) (omega arith) (omega arith)
              (omega (arith, write_all-calm io' laws' fuel w t w' sent))))
          (write_all-Written io' laws' fuel w t (omega arith)))
  copy_round-Copied again fuel r w buf written more small le next (err k, r', buf') called =
      let same = laws.read_err r buf k r' buf' called in
      let long : length buf' ≡ length buf =
        cc (ap (λ c. length c.2) called, laws.read_length r buf) in
      elim (Bool-cases (is_interrupted k)) [
        | inl retry ↦
            let less = limits.fewer r buf r' buf' (rw (is_interrupted_eq k retry) at called) in
            rw (retry, ← same)
              (next r' w buf' written (omega arith) small (omega (arith, ap length same)))
        | inr fatal ↦ rw fatal (
          [],
          ([], (rw append-nil refl, (cc same, inl ((r, (buf, (r', (buf', called)))), refl)))),
        )
      ]
  copy_round-Copied again fuel r w buf written more small le next (panic, r', buf') called =
      inl (r, (buf, (r', (buf', called))))

  copy_loop-Copied :
      (fuel : ℕ) (r : R) (w : W) (buf : Bytes) (written : ℕ)
      → 0 < length buf
      → written < 2 ^ 64
      → length (laws.pending r) + limits.interrupts r + laws'.interrupts w + 1 < fuel
      → Copied (laws.pending r) (laws'.output w) written (copy_loop io io' fuel r w buf written)
  unfolding copy_loop
  copy_loop-Copied zero r w buf written more small h = absurd (omega arith)
  copy_loop-Copied (suc fuel) r w buf written more small h =
      copy_round-Copied (copy_loop io io' fuel) fuel r w buf written more small (omega arith)
        (λ r' w' buf' n long little le. copy_loop-Copied fuel r' w' buf' n long little le) _ refl

  -- Over a reader and a writer that keep their contracts, with a buffer of DEFAULT_BUF_SIZE and
  -- fuel above the pending bytes, the interruptions of both and one, copy returns: with success all
  -- that was pending is written, and the count is its length in 64 bits; where read fails, what was
  -- read is written; where write_all fails, what is written and what is lost were read in this
  -- order.
  pub copy-Copied :
      (buf : Bytes) (fuel : ℕ) (r : R) (w : W)
      → length buf ≡ default_buf_size
      → length (laws.pending r) + limits.interrupts r + laws'.interrupts w + 1 < fuel
      → Copied (laws.pending r) (laws'.output w) 0 (copy io io' buf fuel r w)
  unfolding copy
  copy-Copied buf fuel r w size h =
      copy_loop-Copied fuel r w buf 0 (omega (arith, size)) (omega arith) h
