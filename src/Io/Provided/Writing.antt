-- ===== src/Io/Provided/Writing.antt =====
-- io/mod.rs: `write_all` returns, and what the writer has accepted then.
use mathlib.Core.List.{append-nil, append_assoc}
use rust_libstd.Prelude.{
  ℕ, zero, suc, ◌+◌, ◌≤◌, ◌<◌, ◌≡◌, ◌⊎◌, refl, ◌∙◌, true, leb, Option, none, some, [], ◌∷◌, ◌++◌,
  length, take, drop, length-drop, take-append-drop, take_add, arith, Bool-cases, inl, inr,
}
use rust_libstd.Io.Error.{
  ErrorKind, write_zero, Call, ok, err, panic, is_interrupted, is_interrupted_eq,
}
use rust_libstd.Io.Writer.{Bytes, Write, WriteLaws}
use rust_libstd.Io.Provided.{write_round, write_all}

module _ {W : Type 0} (io : Write W) (laws : WriteLaws io) where
  open laws use {output, interrupts, write_ok, write_err}

  -- Some call of `write` with bytes to write does that.
  abbrev pub Writes : Call ℕ → Type 0
  Writes c =
      (w : W) × ((buf : Bytes) × ((w' : W) × ((0 < length buf) × (io.write w buf ≡ (c, w')))))

  abbrev pub Refused : ErrorKind → Type 0
  Refused e = Writes (err e) ⊎ ((e ≡ write_zero) × Writes (ok 0))

  -- Of a call to write `buf` after `before`: success has written it all; an error, which is one of
  -- `write` or stands for no byte, some first bytes; a panic is one of `write`.
  abbrev pub Written : Bytes → Bytes → Option (Call (Unit {0}) × W) → Type 0
  Written before buf none = ⊥
  Written before buf (some (ok _, w)) = output w ≡ before ++ buf
  Written before buf (some (err e, w)) =
      Refused e × ((n : ℕ) × ((n ≤ length buf) × (output w ≡ before ++ take n buf)))
  Written before buf (some (panic, w)) = Writes panic

  -- After some first bytes, the rest.
  Written-append :
      (before : Bytes) (m : ℕ) (buf : Bytes) (ran : Option (Call (Unit {0}) × W))
      → m ≤ length buf
      → Written (before ++ take m buf) (drop m buf) ran
      → Written before buf ran
  Written-append before m buf none le h = h
  Written-append before m buf (some (ok _, w)) le h = h ∙ rw (append_assoc, take-append-drop) refl
  Written-append before m buf (some (err e, w)) le (why, (n, (few, h))) =
      (why, (m + n, (omega (arith, few, length-drop m buf), h ∙ rw (append_assoc, take_add) refl)))
  Written-append before m buf (some (panic, w)) le h = h

  write_round-Written :
      (again : W → Bytes → Option (Call (Unit {0}) × W)) (buf : Bytes) (w : W) (bound : ℕ)
      → 0 < length buf
      → length buf + interrupts w ≤ bound
      → ((w' : W) (rest : Bytes)
          → length rest + interrupts w' < bound
          → Written (output w') rest (again w' rest))
      → (r : Call ℕ × W) → io.write w buf ≡ r
      → Written (output w) buf (write_round io again buf r)
  write_round-Written again buf w bound more le next (ok zero, w') called = (
    inr (refl, (w, (buf, (w', (more, called))))),
    (0, (omega arith, (write_ok w buf 0 w' called).1)),
  )
  write_round-Written again buf w bound more le next (ok (suc n), w') called =
      let (few, accepted, calm) = write_ok w buf (suc n) w' called in
      let fits : leb (suc n) (length buf) ≡ true = ground arith in
      rw fits (
        Written-append (output w) (suc n) buf _ few
          (rw (← accepted) (next w' (drop (suc n) buf) (omega (arith, length-drop (suc n) buf)))))
  write_round-Written again buf w bound more le next (err k, w') called =
      let (same, _, fewer) = write_err w buf k w' called in
      elim (Bool-cases (is_interrupted k)) [
        | inl retry ↦
            rw (retry, ← same) (next w' buf (omega (arith, le, fewer (is_interrupted_eq k retry))))
        | inr fatal ↦
            rw fatal
              (inl (w, (buf, (w', (more, called)))), (0, (omega arith, same ∙ rw append-nil refl)))
      ]
  write_round-Written again buf w bound more le next (panic, w') called =
      (w, (buf, (w', (more, called))))

  -- Over a writer that keeps its contract, with fuel above the length of the buffer and the
  -- interruptions that are left, write_all returns: with success the writer has accepted the whole
  -- buffer; an error is one of write, or WriteZero where write took no byte, and the writer has
  -- accepted some first bytes of the buffer.
  pub write_all-Written :
      (fuel : ℕ) (w : W) (buf : Bytes)
      → length buf + interrupts w < fuel
      → Written (output w) buf (write_all io fuel w buf)
  unfolding write_all
  write_all-Written zero w buf h = absurd (omega arith)
  write_all-Written (suc fuel) w [] h = rw append-nil refl
  write_all-Written (suc fuel) w (b ∷ buf) h =
      write_round-Written (write_all io fuel) (b ∷ buf) w fuel (omega arith) (omega arith)
        (λ w' rest le. write_all-Written fuel w' rest le) _ refl

  -- A write that succeeds uses up no more interruptions than there were.
  write_round-calm :
      (again : W → Bytes → Option (Call (Unit {0}) × W)) (buf : Bytes) (w after : W)
      → ((w' : W) (rest : Bytes)
          → again w' rest ≡ some (ok tt, after)
          → interrupts after ≤ interrupts w')
      → (r : Call ℕ × W) → io.write w buf ≡ r
      → write_round io again buf r ≡ some (ok tt, after)
      → interrupts after ≤ interrupts w
  write_round-calm again buf w after next (ok zero, w') called e = cc
  write_round-calm again buf w after next (ok (suc n), w') called e =
      let (few, _, quiet) = write_ok w buf (suc n) w' called in
      let fits : leb (suc n) (length buf) ≡ true = ground arith in
      omega (arith, quiet, next w' (drop (suc n) buf) (rw fits at e))
  write_round-calm again buf w after next (err k, w') called e =
      let (_, quiet, _) = write_err w buf k w' called in
      elim (Bool-cases (is_interrupted k)) [
        | inl retry ↦ omega (arith, quiet, next w' buf (rw retry at e))
        | inr fatal ↦ cc (rw fatal at e)
      ]
  write_round-calm again buf w after next (panic, w') called e = cc

  pub write_all-calm :
      (fuel : ℕ) (w : W) (buf : Bytes) (after : W)
      → write_all io fuel w buf ≡ some (ok tt, after)
      → interrupts after ≤ interrupts w
  unfolding write_all
  write_all-calm zero w buf after e = cc
  write_all-calm (suc fuel) w [] after e = let same : w ≡ after = cc in rw same (omega arith)
  write_all-calm (suc fuel) w (b ∷ buf) after e =
      write_round-calm (write_all io fuel) (b ∷ buf) w after
        (λ w' rest k. write_all-calm fuel w' rest after k) _ refl e
