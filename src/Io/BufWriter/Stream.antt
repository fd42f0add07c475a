-- ===== src/Io/BufWriter/Stream.antt =====
-- io/buffered.rs: the bytes that a `BufWriter` has accepted are those that its inner writer has
-- accepted, followed by the buffer.
use mathlib.Core.List.{append-nil, append_assoc}
use mathlib.Core.Option.{some-injective}
use mathlib.Core.Path.{subst}
use rust_libstd.Prelude.{
  take_add, drop_all, ℕ, zero, suc, ◌+◌, ◌≤◌, ◌≡◌, ◌≢◌, refl, sym, ◌∙◌, Bool, true, false, ltb, leb,
  Option, some, [], ◌++◌, length, take, drop, length-drop, take-append-drop, arith, Bool-cases,
  Option-cases, inl, inr,
}
use rust_libstd.Io.Error.{Call, ok, err, panic, is_interrupted}
use rust_libstd.Io.Writer.{Bytes, Write, WriteLaws}
use rust_libstd.Io.BufWriter.{BufWriter, Flushed, flush_round, flush_loop, drained, flush_buf}

module _ {W : Type 0} (io : Write W) (laws : WriteLaws io) where
  open laws use {output, interrupts, write_ok, write_err, flush_output}

  -- The loop on a buffer, from `written₀` bytes on.
  record Progress (buf : Bytes) (before : Bytes) (f : Flushed W) : Type 0 where
    within : f.written ≤ length buf
    accepted : f.ret ≢ panic → output f.inner ≡ before ++ take f.written buf
    complete : f.ret ≡ ok tt → f.written ≡ length buf
    flagged : f.ret ≡ panic → f.panicked ≡ true

  module _ (buf before : Bytes) (f : Flushed W) (w : W) (written : ℕ) (le : written ≤ length buf)
      (out : output w ≡ before ++ take written buf) where
    flush_round-Progress :
        (again : W → ℕ → Option (Flushed W))
        → ((w' : W) (n : ℕ)
            → n ≤ length buf
            → output w' ≡ before ++ take n buf
            → again w' n ≡ some f
            → Progress buf before f)
        → (r : Call ℕ × W) → io.write w (drop written buf) ≡ r
        → flush_round io again written r ≡ some f
        → Progress buf before f
    flush_round-Progress again next (ok zero, w') called e =
        let (_, accepted, _) = write_ok w (drop written buf) 0 w' called in
        let same : output w' ≡ before ++ take written buf =
          accepted ∙ append-nil (output w) ∙ out in
        subst (Progress buf before) (some-injective _ _ e)
          (record { within = le; accepted = λ _. same; complete = λ h. cc; flagged = λ h. cc })
    flush_round-Progress again next (ok (suc n), w') called e =
        let (few, accepted, _) = write_ok w (drop written buf) (suc n) w' called in
        next w' (written + suc n) (omega (arith, length-drop written buf))
          (accepted ∙ rw (out, take_add, append_assoc) refl) e
    flush_round-Progress again next (err k, w') called e =
        let (accepted, _, _) = write_err w (drop written buf) k w' called in
        let same = accepted ∙ out in
        elim (Bool-cases (is_interrupted k)) [
          | inl again_now ↦ next w' written le same (rw again_now at e)
          | inr fatal ↦
              subst (Progress buf before) (some-injective _ _ (rw fatal at e)) (record {
                within = le;
                accepted = λ _. same;
                complete = λ h. cc;
                flagged = λ h. cc;
              })
        ]
    flush_round-Progress again next (panic, w') called e =
        subst (Progress buf before) (some-injective _ _ e) (record {
          within = le;
          accepted = λ h. absurd (h refl);
          complete = λ h. cc;
          flagged = λ h. refl;
        })

  flush_loop-Progress :
      (fuel : ℕ) (buf before : Bytes) (panicked : Bool) (w : W) (written : ℕ) (f : Flushed W)
      → written ≤ length buf
      → output w ≡ before ++ take written buf
      → flush_loop io fuel buf panicked w written ≡ some f
      → Progress buf before f
  unfolding flush_loop
  flush_loop-Progress zero buf before panicked w written f le out e = cc
  flush_loop-Progress (suc fuel) buf before panicked w written f le out e =
      elim (Bool-cases (ltb written (length buf))) [
        | inl more ↦
            flush_round-Progress buf before f w written le out _
              (λ w' n h o. flush_loop-Progress fuel buf before false w' n f h o) _ refl
              (rw more at e)
        | inr done ↦ subst (Progress buf before) (some-injective _ _ (rw done at e)) (record {
          within = le;
          accepted = λ _. out;
          complete = λ _. ground arith;
          flagged = λ h. cc;
        })
      ]

  -- All the bytes that a `BufWriter` has accepted.
  abbrev pub stream : BufWriter W → Bytes
  stream s = output s.inner ++ s.buf

  -- What holds of a call that returned, with `taken` the bytes that it has accepted.
  abbrev pub Returned : {A : Type 0} → BufWriter W → (A → Bytes) → Call A × BufWriter W → Type 0
  Returned self taken (ok a, s) =
      (stream s ≡ stream self ++ taken a)
      × (length s.buf ≤ s.capacity)
      × (s.capacity ≡ self.capacity)
  Returned self taken (err e, s) =
      (stream s ≡ stream self) × (length s.buf ≤ s.capacity) × (s.capacity ≡ self.capacity)
  Returned self taken (panic, s) = Unit

  settle-Returned :
      (self : BufWriter W) (ret : Call (Unit {0})) (w : W) (written : ℕ) (flag : Bool)
      → length self.buf ≤ self.capacity
      → Progress self.buf
          (output self.inner)
          (record { ret = ret; inner = w; written = written; panicked = flag })
      → Returned self
          (λ _. [])
          (drained io self (record { ret = ret; inner = w; written = written; panicked = flag }))
  settle-Returned self (ok u) w written flag roomy p =
      let fits : leb written (length self.buf) ≡ true = ground (arith, p.within) in
      let out = p.accepted (λ h. cc) in
      rw fits (
        rw (append-nil, out, append_assoc, take-append-drop) refl,
        omega (arith, length-drop written self.buf),
        refl,
      )
  settle-Returned self (err k) w written flag roomy p =
      let fits : leb written (length self.buf) ≡ true = ground (arith, p.within) in
      let out = p.accepted (λ h. cc) in
      rw fits (
        rw (out, append_assoc, take-append-drop) refl,
        omega (arith, length-drop written self.buf),
        refl,
      )
  settle-Returned self panic w written flag roomy p = tt

  pub flush_buf-Returned :
      (fuel : ℕ) (self : BufWriter W) (r : Call (Unit {0}) × BufWriter W)
      → length self.buf ≤ self.capacity
      → flush_buf io fuel self ≡ some r
      → Returned self (λ _. []) r
  unfolding flush_buf
  flush_buf-Returned fuel self r roomy e =
      elim (Option-cases (flush_loop io fuel self.buf self.panicked self.inner 0)) [
        | inl out_of_fuel ↦ cc (rw out_of_fuel at e)
        | inr (f, ran) ↦
            let p =
              flush_loop-Progress fuel self.buf (output self.inner) self.panicked self.inner 0 f
                (omega arith) (sym (append-nil _)) ran in
            subst (Returned self (λ _. [])) (some-injective _ _ (rw ran at e))
              (settle-Returned self f.ret f.inner f.written f.panicked roomy p)
      ]

  -- After a flush that succeeds the buffer is empty; where the inner writer panics in it, the
  -- buffer is as it was and the flag is set.
  abbrev pub Flushes : BufWriter W → Call (Unit {0}) × BufWriter W → Type 0
  Flushes self (ok _, s) = s.buf ≡ []
  Flushes self (err e, s) = Unit
  Flushes self (panic, s) = (s.buf ≡ self.buf) × (s.panicked ≡ true)

  settle-Flushes :
      (self : BufWriter W) (ret : Call (Unit {0})) (w : W) (written : ℕ) (flag : Bool)
      → Progress self.buf
          (output self.inner)
          (record { ret = ret; inner = w; written = written; panicked = flag })
      → Flushes self
          (drained io self (record { ret = ret; inner = w; written = written; panicked = flag }))
  settle-Flushes self (ok u) w written flag p =
      let fits : leb written (length self.buf) ≡ true = ground (arith, p.within) in
      rw fits (drop_all written self.buf (omega (arith, p.complete refl)))
  settle-Flushes self (err k) w written flag p =
      let fits : leb written (length self.buf) ≡ true = ground (arith, p.within) in rw fits tt
  settle-Flushes self panic w written flag p = (refl, p.flagged refl)

  pub flush_buf-Flushes :
      (fuel : ℕ) (self : BufWriter W) (r : Call (Unit {0}) × BufWriter W)
      → flush_buf io fuel self ≡ some r
      → Flushes self r
  unfolding flush_buf
  flush_buf-Flushes fuel self r e =
      elim (Option-cases (flush_loop io fuel self.buf self.panicked self.inner 0)) [
        | inl out_of_fuel ↦ cc (rw out_of_fuel at e)
        | inr (f, ran) ↦
            let p =
              flush_loop-Progress fuel self.buf (output self.inner) self.panicked self.inner 0 f
                (omega arith) (sym (append-nil _)) ran in
            subst (Flushes self) (some-injective _ _ (rw ran at e))
              (settle-Flushes self f.ret f.inner f.written f.panicked p)
      ]
