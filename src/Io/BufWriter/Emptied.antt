-- ===== src/Io/BufWriter/Emptied.antt =====
-- io/buffered.rs: a `flush` writes the buffer to the inner writer, and flushes that one.
use mathlib.Core.List.{append-nil}
use mathlib.Core.Option.{some-injective}
use mathlib.Core.Path.{subst}
use rust_libstd.Prelude.{
  ℕ, ◌≤◌, ◌≡◌, ◌≢◌, ◌⊎◌, inl, inr, refl, sym, ◌∙◌, none, some, [], ◌++◌, length,
}
use rust_libstd.Io.Error.{Call, ok, err, panic}
use rust_libstd.Io.Writer.{Write, WriteLaws}
use rust_libstd.Io.BufWriter.{BufWriter, Ran, and_then, flush_buf, flush, flush_inner}
use rust_libstd.Io.BufWriter.Stream.{
  stream, Returned, Flushes, flush_buf-Returned, flush_buf-Flushes,
}
use rust_libstd.Io.BufWriter.Calls.{flush-Returned}

module _ {W : Type 0} (io : Write W) (laws : WriteLaws io) where
  open laws use {output, flush_output}

  -- The buffer is empty, the inner writer has all that was accepted, and its flush behind that gave
  -- the result.
  abbrev pub Emptied : BufWriter W → Call (Unit {0}) × BufWriter W → Type 0
  Emptied self (ret, s) =
      (s.buf ≡ [])
      × ((output s.inner ≡ stream io laws self)
          × ((w : W) × ((output w ≡ stream io laws self) × (io.flush w ≡ (ret, s.inner)))))

  -- What `flush_buf` gave, where that was no success.
  abbrev pub Stuck : ℕ → BufWriter W → Call (Unit {0}) × BufWriter W → Type 0
  Stuck fuel self (ret, s) = (ret ≢ ok tt) × (flush_buf io fuel self ≡ some (ret, s))

  flush_inner-Emptied :
      (self s : BufWriter W) (r : Call (Unit {0}) × BufWriter W)
      → output s.inner ≡ stream io laws self
      → s.buf ≡ []
      → flush_inner io s ≡ some r
      → Emptied self r
  unfolding flush_inner
  flush_inner-Emptied self s r all empty e =
      subst (Emptied self) (some-injective _ _ e)
        (empty, (flush_output s.inner ∙ all, (s.inner, (all, refl))))

  flush_cases :
      (fuel : ℕ) (self : BufWriter W) (flushed : Ran W (Unit {0}))
      (r : Call (Unit {0}) × BufWriter W)
      → flush_buf io fuel self ≡ flushed
      → ((f : Call (Unit {0}) × BufWriter W) → flushed ≡ some f → Returned io laws self (λ _. []) f)
      → ((f : Call (Unit {0}) × BufWriter W) → flushed ≡ some f → Flushes io laws self f)
      → and_then (flush_inner io) flushed ≡ some r
      → Emptied self r ⊎ Stuck fuel self r
  flush_cases fuel self none r ran k l e = cc
  flush_cases fuel self (some (ok u, s)) r ran k l e =
      let (out, _, _) = k (ok u, s) refl in
      let empty = l (ok u, s) refl in
      let full : output s.inner ++ s.buf ≡ output s.inner = rw empty (append-nil _) in
      inl (flush_inner-Emptied self s r (sym full ∙ out ∙ append-nil _) empty e)
  flush_cases fuel self (some (err c, s)) r ran k l e =
      inr (subst (Stuck fuel self) (some-injective _ _ e) ((λ h. cc), ran))
  flush_cases fuel self (some (panic, s)) r ran k l e =
      inr (subst (Stuck fuel self) (some-injective _ _ e) ((λ h. cc), ran))

  -- Where flush returns on a buffer within its capacity, over an inner writer that keeps its
  -- contract: either the buffer is empty, the inner writer has accepted all that the BufWriter had
  -- accepted, and the result is that of its flush behind this; or the result is no success and
  -- flush_buf gave it. With success or an error the accepted bytes are the same as before and the
  -- buffer stays within the capacity, which does not change.
  pub flush-Emptied :
      (fuel : ℕ) (self : BufWriter W) (r : Call (Unit {0}) × BufWriter W)
      → length self.buf ≤ self.capacity
      → flush io fuel self ≡ some r
      → (Emptied self r ⊎ Stuck fuel self r) × Returned io laws self (λ _. []) r
  unfolding flush
  flush-Emptied fuel self r roomy e = (
    flush_cases fuel self (flush_buf io fuel self) r refl
        (λ f h. flush_buf-Returned io laws fuel self f roomy h)
        (flush_buf-Flushes io laws fuel self) e,
    flush-Returned io laws fuel self r roomy e,
  )
