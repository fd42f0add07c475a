-- ===== src/Io/BufWriter/Leave.antt =====
-- io/buffered.rs: how a `BufWriter` is taken apart, by `into_inner` and by `Drop`.
use mathlib.Core.List.{append-nil}
use mathlib.Core.Option.{some-injective}
use rust_libstd.Prelude.{
  ℕ, ◌+◌, ◌≤◌, ◌≡◌, refl, sym, ◌∙◌, ap, true, ltb, leb, none, some, [], ◌++◌, length, Bool-cases,
  Option-cases, inl, inr,
}
use rust_libstd.Io.Error.{Call, ok, err, panic}
use rust_libstd.Io.Writer.{Bytes, Write, WriteLaws}
use rust_libstd.Io.BufWriter.{
  BufWriter, Ran, and_then, flush_buf, store, passed, write, unwrapped, into_inner, drop_writer,
}
use rust_libstd.Io.BufWriter.Stream.{
  stream, Returned, Flushes, flush_buf-Returned, flush_buf-Flushes,
}

module _ {W : Type 0} (io : Write W) (laws : WriteLaws io) where
  open laws use {output}

  unwrapped-output :
      (self : BufWriter W) (f : Call (Unit {0}) × BufWriter W) (w : W) (s : BufWriter W)
      → Returned io laws self (λ _. []) f
      → Flushes io laws self f
      → unwrapped io f ≡ (ok w, s)
      → output w ≡ stream io laws self
  unwrapped-output self (ok u, t) w s (out, _, _) empty e =
      let same : t.inner ≡ w = cc in
      let full : output t.inner ++ t.buf ≡ output t.inner = rw empty (append-nil _) in
      rw (← same) (sym full ∙ out ∙ append-nil _)
  unwrapped-output self (err k, t) w s kept h e = cc
  unwrapped-output self (panic, t) w s kept h e = cc

  -- Where into_inner hands out the inner writer of a buffer within its capacity, that writer has
  -- accepted all the bytes that the BufWriter had accepted.
  pub into_inner-output :
      (fuel : ℕ) (self : BufWriter W) (w : W) (s : BufWriter W)
      → length self.buf ≤ self.capacity
      → into_inner io fuel self ≡ some (ok w, s)
      → output w ≡ stream io laws self
  unfolding into_inner
  into_inner-output fuel self w s roomy e = elim (Option-cases (flush_buf io fuel self)) [
    | inl out_of_fuel ↦ cc (rw out_of_fuel at e)
    | inr (f, ran) ↦
        unwrapped-output self f w s (flush_buf-Returned io laws fuel self f roomy ran)
          (flush_buf-Flushes io laws fuel self f ran) (some-injective _ _ (rw ran at e))
  ]

  passed-panicked :
      (self : BufWriter W) (r : Call ℕ × W) (s : BufWriter W)
      → passed io self r ≡ (panic, s)
      → s.panicked ≡ true
  passed-panicked self (ok n, w) s e = cc
  passed-panicked self (err k, w) s e = cc
  passed-panicked self (panic, w) s e = sym (ap (λ (r : Call ℕ × BufWriter W). r.1.panicked) e)

  store-panicked :
      (bytes : Bytes) (self s : BufWriter W)
      → store io bytes self ≡ some (panic, s)
      → s.panicked ≡ true
  unfolding store
  store-panicked bytes self s e = elim (Bool-cases (leb self.capacity (length bytes))) [
    | inl direct ↦ passed-panicked self _ s (some-injective _ _ (rw direct at e))
    | inr kept ↦ cc (rw kept at e)
  ]

  flushed-panicked :
      (fuel : ℕ) (bytes : Bytes) (self s : BufWriter W)
      → and_then (store io bytes) (flush_buf io fuel self) ≡ some (panic, s)
      → s.panicked ≡ true
  flushed-panicked fuel bytes self s e =
      go (flush_buf io fuel self) (flush_buf-Flushes io laws fuel self) e
    where
      go :
          (flushed : Ran W (Unit {0}))
          → ((f : Call (Unit {0}) × BufWriter W) → flushed ≡ some f → Flushes io laws self f)
          → and_then (store io bytes) flushed ≡ some (panic, s)
          → s.panicked ≡ true
      go none h e = cc
      go (some (ok u, t)) h e = store-panicked bytes t s e
      go (some (err k, t)) h e = cc
      go (some (panic, t)) h e =
          let (_, flag) = h (panic, t) refl in let same : t ≡ s = cc in rw (← same) flag

  -- When a write unwinds from a panic of the inner writer, the Drop that follows writes nothing: it
  -- leaves the object as it is.
  drop_writer-write :
      (fuel later : ℕ) (self : BufWriter W) (bytes : Bytes) (s : BufWriter W)
      → write io fuel self bytes ≡ some (panic, s)
      → drop_writer io later s ≡ some s
  unfolding write drop_writer
  drop_writer-write fuel later self bytes s e =
      let flag : s.panicked ≡ true =
        elim (Bool-cases (ltb self.capacity (length self.buf + length bytes))) [
          | inl full ↦ flushed-panicked fuel bytes self s (rw full at e)
          | inr room ↦ store-panicked bytes self s (rw room at e)
        ] in
      rw flag refl
