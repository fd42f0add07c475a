-- ===== src/Io/LineWriter/Lines.antt =====
-- io/buffered.rs: `LineWriter` keeps the contract of `Write`, though it drops errors after the
-- line is written.
use mathlib.Core.List.{append-nil, append_assoc}
use mathlib.Core.Option.{some-injective}
use mathlib.Core.Path.{subst}
use rust_libstd.Prelude.{
  ℕ, ◌+◌, ◌≤◌, ◌≡◌, refl, sym, ◌∙◌, Bool, true, false, ◌==◌, if◌then◌else◌, Option, none, some, [],
  ◌++◌, length, take, drop, take_add, take-take, length-take, arith, Bool-cases, leb, Option-cases,
  inl, inr,
}
use rust_libstd.Io.Error.{Call, ok, err, panic}
use rust_libstd.Io.Writer.{Bytes, Write, WriteLaws}
use rust_libstd.Io.BufWriter
use rust_libstd.Io.BufWriter.{BufWriter}
use rust_libstd.Io.BufWriter.Stream.{stream, Returned}
use rust_libstd.Io.BufWriter.Calls.{Kept-trans, write-Returned, flush-Returned, write-count}
use rust_libstd.Io.LineWriter.{
  LineWriter, LineRan, flush_done, flush, wrapped, rest_done, on_flush, on_line, write_found,
  then_write, write,
}

module _ {W : Type 0} (io : Write W) (laws : WriteLaws io) (memrchr : ℕ → Bytes → Option ℕ) where
  -- What holds of a call, on the `BufWriter` inside.
  abbrev LineReturned : {A : Type 0} → BufWriter W → (A → Bytes) → Call A × LineWriter W → Type 0
  LineReturned self taken (ret, s) = Returned io laws self taken (ret, s.inner)

  flush_done-Kept :
      (self : LineWriter W) (f : Call (Unit {0}) × BufWriter W)
      → Returned io laws self.inner (λ _. []) f
      → LineReturned self.inner (λ _. []) (flush_done io memrchr self f)
  flush_done-Kept self (ok u, b) h = h
  flush_done-Kept self (err e, b) h = h
  flush_done-Kept self (panic, b) h = tt

  flush-Kept :
      (fuel : ℕ) (self : LineWriter W) (r : Call (Unit {0}) × LineWriter W)
      → length self.inner.buf ≤ self.inner.capacity
      → flush io memrchr fuel self ≡ some r
      → LineReturned self.inner (λ _. []) r
  unfolding flush
  flush-Kept fuel self r roomy e = elim (Option-cases (BufWriter.flush io fuel self.inner)) [
    | inl out_of_fuel ↦ cc (rw out_of_fuel at e)
    | inr (f, ran) ↦
        subst (LineReturned self.inner (λ _. [])) (some-injective _ _ (rw ran at e))
          (flush_done-Kept self f (flush-Returned io laws fuel self.inner f roomy ran))
  ]

  module _ (self : BufWriter W) (buf : Bytes) where
    rest_done-Kept :
        (s : LineWriter W) (n : ℕ) (c : Call ℕ × BufWriter W)
        → stream io laws s.inner ≡ stream io laws self ++ take n buf
        → s.inner.capacity ≡ self.capacity
        → Returned io laws s.inner (λ m. take m (drop n buf)) c
        → LineReturned self (λ m. take m buf) (rest_done io memrchr s n c)
    rest_done-Kept s n (ok m, b) out cap (more, roomy, same) =
        (more ∙ rw (out, take_add, append_assoc) refl, roomy, same ∙ cap)
    rest_done-Kept s n (err e, b) out cap (kept, roomy, same) = (kept ∙ out, roomy, same ∙ cap)
    rest_done-Kept s n (panic, b) out cap h = tt

    on_flush-Kept :
        (fuel i n : ℕ) (b : BufWriter W) (flushed : LineRan W (Unit {0}))
        (r : Call ℕ × LineWriter W)
        → stream io laws b ≡ stream io laws self ++ take n buf
        → b.capacity ≡ self.capacity
        → ((f : Call (Unit {0}) × LineWriter W) → flushed ≡ some f → LineReturned b (λ _. []) f)
        → on_flush io memrchr fuel buf i n flushed ≡ some r
        → LineReturned self (λ m. take m buf) r
    on_flush-Kept fuel i n b none r out cap k e = cc
    on_flush-Kept fuel i n b (some (ok u, s)) r out cap k e =
        let (same, roomy, c) = k (ok u, s) refl in
        let here = same ∙ append-nil _ ∙ out in
        elim (Bool-cases (n == i + 1)) [
          | inl line ↦
              let at : i + 1 ≡ n = ground arith in
              elim (Option-cases (BufWriter.write io fuel s.inner (drop (i + 1) buf))) [
                | inl out_of_fuel ↦ cc (rw (line, out_of_fuel) at e)
                | inr (w, ran) ↦
                    subst (LineReturned self (λ m. take m buf))
                      (some-injective _ _ (rw (line, ran) at e))
                      (rest_done-Kept s n w here (c ∙ cap) (
                        rw at at
                          (write-Returned io laws fuel s.inner (drop (i + 1) buf) w roomy ran)))
              ]
          | inr short ↦
              subst (LineReturned self (λ m. take m buf)) (some-injective _ _ (rw short at e))
                (here, roomy, c ∙ cap)
        ]
    on_flush-Kept fuel i n b (some (err k', s)) r out cap k e =
        let (same, roomy, c) = k (err k', s) refl in
        subst (LineReturned self (λ m. take m buf)) (some-injective _ _ e)
          (same ∙ out, roomy, c ∙ cap)
    on_flush-Kept fuel i n b (some (panic, s)) r out cap k e =
        subst (LineReturned self (λ m. take m buf)) (some-injective _ _ e) tt

  on_line-Kept :
      (fuel i : ℕ) (self : LineWriter W) (buf : Bytes) (o : Option (Call ℕ × BufWriter W))
      (r : Call ℕ × LineWriter W)
      → ((w : Call ℕ × BufWriter W)
          → o ≡ some w
          → Returned io laws self.inner (λ m. take m (take (i + 1) buf)) w)
      → ((n : ℕ) (t : BufWriter W) → o ≡ some (ok n, t) → n ≤ length (take (i + 1) buf))
      → on_line io memrchr fuel self buf i o ≡ some r
      → LineReturned self.inner (λ m. take m buf) r
  on_line-Kept fuel i self buf none r k count e = cc
  on_line-Kept fuel i self buf (some (ok n, b)) r k count e =
      let (out, roomy, cap) = k (ok n, b) refl in
      let few : n ≤ i + 1 = omega (arith, count n b refl, length-take (i + 1) buf) in
      on_flush-Kept self.inner buf fuel i n b
        (flush io memrchr fuel (record { inner = b; need_flush = true })) r
        (out ∙ rw (take-take n (i + 1) buf few) refl) cap
        (λ f h. flush-Kept fuel (record { inner = b; need_flush = true }) f roomy h) e
  on_line-Kept fuel i self buf (some (err k', b)) r k count e =
      subst (LineReturned self.inner (λ m. take m buf)) (some-injective _ _ e) (k (err k', b) refl)
  on_line-Kept fuel i self buf (some (panic, b)) r k count e =
      subst (LineReturned self.inner (λ m. take m buf)) (some-injective _ _ e) tt

  wrapped-Kept :
      (self : LineWriter W) (taken : ℕ → Bytes) (w : Call ℕ × BufWriter W)
      → Returned io laws self.inner taken w
      → LineReturned self.inner taken (wrapped io memrchr self w)
  wrapped-Kept self taken (ok n, b) h = h
  wrapped-Kept self taken (err e, b) h = h
  wrapped-Kept self taken (panic, b) h = tt

  write_found-Kept :
      (fuel : ℕ) (self : LineWriter W) (buf : Bytes) (found_at : Option ℕ)
      (r : Call ℕ × LineWriter W)
      → length self.inner.buf ≤ self.inner.capacity
      → write_found io memrchr fuel self buf found_at ≡ some r
      → LineReturned self.inner (λ m. take m buf) r
  write_found-Kept fuel self buf none r roomy e =
      elim (Option-cases (BufWriter.write io fuel self.inner buf)) [
        | inl out_of_fuel ↦ cc (rw out_of_fuel at e)
        | inr (w, ran) ↦
            subst (LineReturned self.inner (λ m. take m buf)) (some-injective _ _ (rw ran at e)) (
              wrapped-Kept self (λ m. take m buf) w
                (write-Returned io laws fuel self.inner buf w roomy ran))
      ]
  write_found-Kept fuel self buf (some i) r roomy e = elim (Bool-cases (leb (i + 1) (length buf))) [
    | inl within ↦
        on_line-Kept fuel i self buf (BufWriter.write io fuel self.inner (take (i + 1) buf)) r
          (λ w ran. write-Returned io laws fuel self.inner (take (i + 1) buf) w roomy ran)
          (λ n t ran. write-count io laws fuel self.inner t (take (i + 1) buf) n ran)
          (rw within at e)
    | inr beyond ↦
        subst (LineReturned self.inner (λ m. take m buf)) (some-injective _ _ (rw beyond at e)) tt
  ]

  then_write-Kept :
      (fuel : ℕ) (self : BufWriter W) (buf : Bytes) (o : LineRan W (Unit {0}))
      (r : Call ℕ × LineWriter W)
      → ((f : Call (Unit {0}) × LineWriter W) → o ≡ some f → LineReturned self (λ _. []) f)
      → then_write io memrchr fuel buf o ≡ some r
      → LineReturned self (λ m. take m buf) r
  then_write-Kept fuel self buf none r k e = cc
  then_write-Kept fuel self buf (some (ok u, s)) r k e =
      let (out, roomy, cap) = k (ok u, s) refl in
      Kept-trans io laws self s.inner (λ m. take m buf) (r.0, r.1.inner) (out ∙ append-nil _) cap
        (write_found-Kept fuel s buf (memrchr b'\n' buf) r roomy e)
  then_write-Kept fuel self buf (some (err c, s)) r k e =
      subst (LineReturned self (λ m. take m buf)) (some-injective _ _ e) (k (err c, s) refl)
  then_write-Kept fuel self buf (some (panic, s)) r k e =
      subst (LineReturned self (λ m. take m buf)) (some-injective _ _ e) tt

  flushed_first-Kept :
      (need : Bool) (self : LineWriter W) (flushed : LineRan W (Unit {0}))
      (f : Call (Unit {0}) × LineWriter W)
      → length self.inner.buf ≤ self.inner.capacity
      → (flushed ≡ some f → LineReturned self.inner (λ _. []) f)
      → (if need then flushed else some (ok tt, self)) ≡ some f
      → LineReturned self.inner (λ _. []) f
  flushed_first-Kept true self flushed f roomy k e = k e
  flushed_first-Kept false self flushed f roomy k e =
      subst (LineReturned self.inner (λ _. [])) (some-injective _ _ e)
        (sym (append-nil _), roomy, refl)

  -- Where write of a LineWriter returns, its buffer within its capacity, over an inner writer that
  -- keeps its contract and for any function in the place of memrchr: if it returns n, also after an
  -- error that it drops, the accepted bytes grow by the first n bytes of the argument; if it
  -- returns an error, they are the same; in both cases the buffer stays within the capacity, which
  -- does not change.
  pub line_write-Returned :
      (fuel : ℕ) (self : LineWriter W) (buf : Bytes) (r : Call ℕ × LineWriter W)
      → length self.inner.buf ≤ self.inner.capacity
      → write io memrchr fuel self buf ≡ some r
      → Returned io laws self.inner (λ m. take m buf) (r.0, r.1.inner)
  unfolding write
  line_write-Returned fuel self buf r roomy e =
      then_write-Kept fuel self.inner buf _ r
        (λ f h.
          flushed_first-Kept self.need_flush self (flush io memrchr fuel self) f roomy
            (λ g. flush-Kept fuel self f roomy g) h)
        e
