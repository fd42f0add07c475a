-- ===== src/Io/BufWriter/Ends.antt =====
-- io/buffered.rs: the loop of `flush_buf` ends, since each round writes a byte or uses up an
-- interruption of the inner writer.
use rust_libstd.Prelude.{
  ℕ, zero, suc, ◌+◌, ◌-◌, ◌≤◌, ◌<◌, ◌≡◌, ◌≢◌, refl, Bool, false, ltb, leb, Option, none, some,
  length, drop, arith, Bool-cases, Option-cases, inl, inr,
}
use rust_libstd.Io.Error.{Call, ok, err, panic, is_interrupted, is_interrupted_eq}
use rust_libstd.Io.Writer.{Bytes, Write, WriteLaws}
use rust_libstd.Io.BufWriter.{
  BufWriter, Flushed, Ran, and_then, flush_round, flush_loop, flush_buf, store, write, flush,
  flush_inner,
}

module _ {W : Type 0} (io : Write W) (laws : WriteLaws io) where
  open laws use {interrupts, write_ok, write_err}

  flush_round-some :
      (again : W → ℕ → Option (Flushed W)) (buf : Bytes) (bound : ℕ) (w : W) (written : ℕ)
      → (r : Call ℕ × W) → written < length buf
      → (length buf - written) + interrupts w ≤ bound
      → ((w' : W) (n : ℕ) → (length buf - n) + interrupts w' < bound → again w' n ≢ none)
      → io.write w (drop written buf) ≡ r
      → flush_round io again written r ≢ none
  flush_round-some again buf bound w written (ok zero, w') more le next called = λ e. cc
  flush_round-some again buf bound w written (ok (suc n), w') more le next called =
      let (few, _, calm) = write_ok w (drop written buf) (suc n) w' called in
      next w' (written + suc n) (omega (arith, few, calm))
  flush_round-some again buf bound w written (err k, w') more le next called =
      let (_, _, fewer) = write_err w (drop written buf) k w' called in
      elim (Bool-cases (is_interrupted k)) [
        | inl again_now ↦
            rw again_now
              (next w' written (omega (arith, le, fewer (is_interrupted_eq k again_now))))
        | inr fatal ↦ rw fatal (λ e. cc)
      ]
  flush_round-some again buf bound w written (panic, w') more le next called = λ e. cc

  flush_loop-some :
      (fuel : ℕ) (buf : Bytes) (panicked : Bool) (w : W) (written : ℕ)
      → (length buf - written) + interrupts w < fuel
      → flush_loop io fuel buf panicked w written ≢ none
  unfolding flush_loop
  flush_loop-some zero buf panicked w written h = absurd (omega arith)
  flush_loop-some (suc fuel) buf panicked w written h =
      elim (Bool-cases (ltb written (length buf))) [
        | inl more ↦ rw more (
            flush_round-some (flush_loop io fuel buf false) buf fuel w written _ (ground arith)
              (omega arith) (λ w' n le. flush_loop-some fuel buf false w' n le) refl)
        | inr done ↦ rw done (λ e. cc)
      ]

  flush_buf-some :
      (fuel : ℕ) (self : BufWriter W)
      → length self.buf + interrupts self.inner < fuel
      → flush_buf io fuel self ≢ none
  unfolding flush_buf
  flush_buf-some fuel self h e =
      elim (Option-cases (flush_loop io fuel self.buf self.panicked self.inner 0)) [
        | inl out_of_fuel ↦
            flush_loop-some fuel self.buf self.panicked self.inner 0 (omega arith) out_of_fuel
        | inr (f, ran) ↦ cc (rw ran at e)
      ]

  and_then-some :
      {A : Type 0} (next : BufWriter W → Ran W A) (flushed : Ran W (Unit {0}))
      → ((s : BufWriter W) → next s ≢ none)
      → flushed ≢ none
      → and_then next flushed ≢ none
  and_then-some next none later h = λ e. h refl
  and_then-some next (some (ok u, s)) later h = later s
  and_then-some next (some (err c, s)) later h = λ e. cc
  and_then-some next (some (panic, s)) later h = λ e. cc

  store-some : (bytes : Bytes) (s : BufWriter W) → store io bytes s ≢ none
  unfolding store
  store-some bytes s e = elim (Bool-cases (leb s.capacity (length bytes))) [
    | inl direct ↦ cc (rw direct at e)
    | inr kept ↦ cc (rw kept at e)
  ]

  -- With more fuel than the length of the buffer and the number of interruptions that the inner
  -- writer has left, write and flush return.
  pub write-flush-some :
      (fuel : ℕ) (self : BufWriter W) (bytes : Bytes)
      → length self.buf + interrupts self.inner < fuel
      → (write io fuel self bytes ≢ none) × (flush io fuel self ≢ none)
  unfolding write flush flush_inner
  write-flush-some fuel self bytes h = (
    elim (Bool-cases (ltb self.capacity (length self.buf + length bytes))) [
      | inl full ↦
          rw full (
            and_then-some (store io bytes) _ (λ s. store-some bytes s) (flush_buf-some fuel self h))
      | inr room ↦ rw room (store-some bytes self)
    ],
    and_then-some (flush_inner io) _ (λ s e. cc) (flush_buf-some fuel self h),
  )
