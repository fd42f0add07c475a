-- ===== src/Io/BufWriter/Calls.antt =====
-- io/buffered.rs: `write` and `flush` of a `BufWriter` keep the contract of `Write`.
use mathlib.Core.List.{append-nil, append_assoc}
use mathlib.Core.Option.{some-injective}
use mathlib.Core.Path.{subst}
use rust_libstd.Prelude.{
  ℕ, ◌+◌, ◌≤◌, ◌<◌, ◌≡◌, ◌⊎◌, refl, ◌∙◌, ap, ltb, leb, leb→le, none, some, [], ◌∷◌, length, take,
  take_all, length-append, arith, Bool-cases, inl, inr,
}
use rust_libstd.Io.Error.{Call, ok, err, panic}
use rust_libstd.Io.Writer.{Bytes, Write, WriteLaws}
use rust_libstd.Io.BufWriter.{
  BufWriter, Ran, and_then, flush_buf, store, passed, write, flush, flush_inner,
}
use rust_libstd.Io.BufWriter.Stream.{
  stream, Returned, Flushes, flush_buf-Returned, flush_buf-Flushes,
}

module _ {W : Type 0} (io : Write W) (laws : WriteLaws io) where
  open laws use {output, interrupts, write_ok, write_err, flush_output}

  abbrev Kept : {A : Type 0} → BufWriter W → (A → Bytes) → Call A × BufWriter W → Type 0
  Kept = Returned io laws

  empty_of_length : (b : Bytes) → length b ≤ 0 → b ≡ []
  empty_of_length [] h = refl
  empty_of_length (x ∷ b) h = absurd (omega arith)

  passed-Kept :
      (s : BufWriter W) (bytes : Bytes) (r : Call ℕ × W)
      → length s.buf ≤ s.capacity
      → s.buf ≡ []
      → io.write s.inner bytes ≡ r
      → Kept s (λ n. take n bytes) (passed io s r)
  passed-Kept s bytes (ok n, w) roomy empty e =
      let (_, out, _) = write_ok s.inner bytes n w e in
      (rw empty (append-nil _ ∙ out ∙ rw append-nil), roomy, refl)
  passed-Kept s bytes (err k, w) roomy empty e =
      let (out, _, _) = write_err s.inner bytes k w e in (rw (empty, out), roomy, refl)
  passed-Kept s bytes (panic, w) roomy empty e = tt

  store-Kept :
      (s : BufWriter W) (bytes : Bytes) (r : Call ℕ × BufWriter W)
      → length s.buf ≤ s.capacity
      → (length s.buf + length bytes ≤ s.capacity) ⊎ (s.buf ≡ [])
      → store io bytes s ≡ some r
      → Kept s (λ n. take n bytes) r
  unfolding store
  store-Kept s bytes r roomy room e = elim (Bool-cases (leb s.capacity (length bytes))) [
    | inl direct ↦
        let empty : s.buf ≡ [] = elim room [
          | inl small ↦
              let most = leb→le s.capacity (length bytes) direct in
              empty_of_length s.buf (omega arith)
          | inr none_left ↦ none_left
        ] in
        subst (Kept s (λ n. take n bytes)) (some-injective _ _ (rw direct at e))
          (passed-Kept s bytes _ roomy empty refl)
    | inr kept ↦
        let few : length bytes < s.capacity = ground arith in
        let fits : length s.buf + length bytes ≤ s.capacity = elim room [
          | inl small ↦ small
          | inr none_left ↦ omega (arith, ap (λ (b : Bytes). length b) none_left)
        ] in
        subst (Kept s (λ n. take n bytes)) (some-injective _ _ (rw kept at e)) (
          rw (take_all (length bytes) bytes (omega arith), append_assoc) refl,
          omega (arith, length-append s.buf bytes),
          refl,
        )
  ]

  pub Kept-trans :
      {A : Type 0} (self s : BufWriter W) (taken : A → Bytes) (r : Call A × BufWriter W)
      → stream io laws s ≡ stream io laws self
      → s.capacity ≡ self.capacity
      → Kept s taken r
      → Kept self taken r
  Kept-trans self s taken (ok a, t) same cap (out, roomy, c) = (rw (← same) out, roomy, c ∙ cap)
  Kept-trans self s taken (err e, t) same cap (out, roomy, c) = (out ∙ same, roomy, c ∙ cap)
  Kept-trans self s taken (panic, t) same cap h = tt

  -- After a flush, `next` on what it left.
  and_then-Kept :
      {A : Type 0} (fuel : ℕ) (self : BufWriter W) (taken : A → Bytes)
      (next : BufWriter W → Ran W A) (r : Call A × BufWriter W)
      → length self.buf ≤ self.capacity
      → ((s : BufWriter W)
          → length s.buf ≤ s.capacity
          → s.buf ≡ []
          → next s ≡ some r
          → Kept s taken r)
      → and_then next (flush_buf io fuel self) ≡ some r
      → Kept self taken r
  and_then-Kept fuel self taken next r roomy later e =
      go (flush_buf io fuel self) (λ f h. flush_buf-Returned io laws fuel self f roomy h)
        (flush_buf-Flushes io laws fuel self) e
    where
      go :
          (flushed : Ran W (Unit {0}))
          → ((f : Call (Unit {0}) × BufWriter W) → flushed ≡ some f → Kept self (λ _. []) f)
          → ((f : Call (Unit {0}) × BufWriter W) → flushed ≡ some f → Flushes io laws self f)
          → and_then next flushed ≡ some r
          → Kept self taken r
      go none k l e = cc
      go (some (ok u, s)) k l e =
          let (out, fits, cap) = k (ok u, s) refl in
          Kept-trans self s taken r (out ∙ append-nil _) cap (later s fits (l (ok u, s) refl) e)
      go (some (err c, s)) k l e =
          subst (Kept self taken) (some-injective _ _ e) (k (err c, s) refl)
      go (some (panic, s)) k l e = subst (Kept self taken) (some-injective _ _ e) tt

  -- Where write returns on a buffer within its capacity, over an inner writer that keeps its
  -- contract: if it returns n, the accepted bytes, those of the inner writer followed by the
  -- buffer, grow by the first n bytes of the argument; if it returns an error, they are the same;
  -- in both cases the buffer stays within the capacity, which does not change.
  pub write-Returned :
      (fuel : ℕ) (self : BufWriter W) (bytes : Bytes) (r : Call ℕ × BufWriter W)
      → length self.buf ≤ self.capacity
      → write io fuel self bytes ≡ some r
      → Returned io laws self (λ n. take n bytes) r
  unfolding write
  write-Returned fuel self bytes r roomy e =
      elim (Bool-cases (ltb self.capacity (length self.buf + length bytes))) [
        | inl full ↦
            and_then-Kept fuel self (λ n. take n bytes) (store io bytes) r roomy
              (λ s fits empty h. store-Kept s bytes r fits (inr empty) h) (rw full at e)
        | inr room ↦ store-Kept self bytes r roomy (inl (ground arith)) (rw room at e)
      ]

  flush_inner-Kept :
      (s : BufWriter W) (ret : Call (Unit {0})) (w : W)
      → length s.buf ≤ s.capacity
      → s.buf ≡ []
      → output w ≡ output s.inner
      → Kept s (λ _. []) (ret, record s { inner = w })
  flush_inner-Kept s (ok u) w roomy empty out = (rw (out, append-nil) refl, roomy, refl)
  flush_inner-Kept s (err e) w roomy empty out = (rw out refl, roomy, refl)
  flush_inner-Kept s panic w roomy empty out = tt

  -- Where flush returns on a buffer within its capacity, over an inner writer that keeps its
  -- contract, with success or an error, the accepted bytes are the same as before and the buffer
  -- stays within the capacity, which does not change.
  pub flush-Returned :
      (fuel : ℕ) (self : BufWriter W) (r : Call (Unit {0}) × BufWriter W)
      → length self.buf ≤ self.capacity
      → flush io fuel self ≡ some r
      → Returned io laws self (λ _. []) r
  unfolding flush flush_inner
  flush-Returned fuel self r roomy e =
      and_then-Kept fuel self (λ _. []) (flush_inner io) r roomy
        (λ s fits empty h.
          subst (Kept s (λ _. [])) (some-injective _ _ h)
            (flush_inner-Kept s _ _ fits empty (flush_output s.inner)))
        e

  store-count :
      (s t : BufWriter W) (bytes : Bytes) (n : ℕ)
      → store io bytes s ≡ some (ok n, t)
      → n ≤ length bytes
  unfolding store
  store-count s t bytes n e = elim (Bool-cases (leb s.capacity (length bytes))) [
    | inl direct ↦ passed_count s t bytes n _ refl (some-injective _ _ (rw direct at e))
    | inr kept ↦ let count : length bytes ≡ n = cc (rw kept at e) in omega (arith, count)
  ]
    where
      passed_count :
          (s t : BufWriter W) (bytes : Bytes) (n : ℕ) (r : Call ℕ × W)
          → io.write s.inner bytes ≡ r
          → passed io s r ≡ (ok n, t)
          → n ≤ length bytes
      passed_count s t bytes n (ok m, w) called e =
          let (few, _, _) = write_ok s.inner bytes m w called in
          let count : m ≡ n = cc in omega (arith, few, count)
      passed_count s t bytes n (err k, w) called e = cc
      passed_count s t bytes n (panic, w) called e = cc

  pub write-count :
      (fuel : ℕ) (self t : BufWriter W) (bytes : Bytes) (n : ℕ)
      → write io fuel self bytes ≡ some (ok n, t)
      → n ≤ length bytes
  unfolding write
  write-count fuel self t bytes n e =
      elim (Bool-cases (ltb self.capacity (length self.buf + length bytes))) [
        | inl full ↦ go (flush_buf io fuel self) (rw full at e)
        | inr room ↦ store-count self t bytes n (rw room at e)
      ]
    where
      go :
          (flushed : Ran W (Unit {0}))
          → and_then (store io bytes) flushed ≡ some (ok n, t)
          → n ≤ length bytes
      go none h = cc
      go (some (ok u, s)) h = store-count s t bytes n h
      go (some (err k, s)) h = cc
      go (some (panic, s)) h = cc
