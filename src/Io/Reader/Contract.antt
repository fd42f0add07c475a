-- ===== src/Io/Reader/Contract.antt =====
-- The contract of `Read` for one call, by what the call returns.
use mathlib.Core.Path.{subst}
use rust_libstd.Prelude.{
  ℕ, zero, suc, ◌+◌, ◌≤◌, ◌<◌, ◌≡◌, ◌⊎◌, inl, inr, refl, [], ◌∷◌, ◌++◌, length, take, arith,
}
use rust_libstd.Io.Error.{ErrorKind, interrupted, Call, ok, err, panic}
use rust_libstd.Io.Writer.{Bytes}
use rust_libstd.Io.Reader.{Read, ReadLaws, ReadEnds}

-- An `Interrupted` uses up one of the interruptions that are left.
abbrev pub Fewer : ErrorKind → ℕ → ℕ → Type 0
Fewer interrupted after before = after < before
Fewer _ after before = Unit

pub Fewer-add : (e : ErrorKind) (a b c d : ℕ) → c ≤ d → Fewer e a b → Fewer e (a + c) (b + d)
Fewer-add interrupted a b c d le h = omega (arith, le, h)
Fewer-add _ a b c d le h = tt

pub Fewer-le : (e : ErrorKind) (a b c : ℕ) → b ≤ c → Fewer e a b → Fewer e a c
Fewer-le interrupted a b c le h = omega (arith, le, h)
Fewer-le _ a b c le h = tt

pub Fewer-add_left : (e : ErrorKind) (a b c d : ℕ) → c ≤ d → Fewer e a b → Fewer e (c + a) (d + b)
Fewer-add_left interrupted a b c d le h = omega (arith, le, h)
Fewer-add_left _ a b c d le h = tt

module _ {R : Type 0} (pending : R → Bytes) (interrupts : R → ℕ) where
  -- Of a call on `r` and `buf`: the first `n` pending bytes are delivered, none for an error, and
  -- where `n` is 0 the buffer was empty or nothing is pending.
  abbrev pub Delivers : R → Bytes → Call ℕ × R × Bytes → Type 0
  Delivers r buf (ok n, r', buf') =
      (length buf' ≡ length buf)
      × ((n ≤ length buf)
          × ((pending r ≡ take n buf' ++ pending r')
              × ((interrupts r' ≤ interrupts r)
                  × ((0 < n) ⊎ ((length buf ≡ 0) ⊎ (pending r ≡ []))))))
  Delivers r buf (err e, r', buf') =
      (length buf' ≡ length buf)
      × ((pending r' ≡ pending r) × Fewer e (interrupts r') (interrupts r))
  Delivers r buf (panic, r', buf') = length buf' ≡ length buf

  -- A call that follows one that has delivered nothing.
  pub Delivers-after :
      (r r' : R) (buf buf' : Bytes) (c : Call ℕ × R × Bytes)
      → length buf' ≡ length buf
      → pending r' ≡ pending r
      → interrupts r' ≤ interrupts r
      → Delivers r' buf' c
      → Delivers r buf c
  Delivers-after r r' buf buf' (ok n, _, _) size same quiet (long, (few, (all, (calm, why)))) =
      (cc, (omega arith, (cc, (omega arith, rw (size, same) at why))))
  Delivers-after r r' buf buf' (err e, s, _) size same quiet (long, (kept, less)) =
      (cc, (cc, Fewer-le e (interrupts s) (interrupts r') (interrupts r) quiet less))
  Delivers-after r r' buf buf' (panic, _, _) size same quiet long = cc

  pub Delivers-length :
      (r : R) (buf : Bytes) (c : Call ℕ × R × Bytes) → Delivers r buf c → length c.2 ≡ length buf
  Delivers-length r buf (ok n, r', buf') h = h.0
  Delivers-length r buf (err e, r', buf') h = h.0
  Delivers-length r buf (panic, r', buf') h = h

  module _ (io : Read R) (kept : (r : R) (buf : Bytes) → Delivers r buf (io.read r buf)) where
    abbrev pub contract_laws : ReadLaws io
    contract_laws = record {
      pending = pending;
      read_length = λ r buf. Delivers-length r buf (io.read r buf) (kept r buf);
      read_ok = λ r buf n r' buf' e.
          let (long, (few, (same, _))) = subst (Delivers r buf) e (kept r buf) in (few, same);
      read_err = λ r buf e r' buf' h. (subst (Delivers r buf) h (kept r buf)).1.0;
    }

    pub ends_of :
        (r : R) (buf : Bytes) (r' : R) (buf' : Bytes)
        → 0 < length buf
        → Delivers r buf (ok 0, r', buf')
        → pending r ≡ []
    ends_of r buf r' buf' more (long, (few, (same, (quiet, why)))) = elim why [
      | inl moved ↦ absurd (omega arith)
      | inr (inl bare) ↦ absurd (omega (arith, bare))
      | inr (inr over) ↦ over
    ]

    abbrev pub contract_ends : ReadEnds io contract_laws
    contract_ends = record {
      interrupts = interrupts;
      calm = λ r buf n r' buf' e. (subst (Delivers r buf) e (kept r buf)).1.1.1.0;
      fewer = λ r buf r' buf' e. (subst (Delivers r buf) e (kept r buf)).1.1;
      ends = λ r buf r' buf' more e.
          ends_of r buf r' buf' more (subst (Delivers r buf) e (kept r buf));
    }

module _ {R : Type 0} (io : Read R) (laws : ReadLaws io) (limits : ReadEnds io laws) where
  open laws use {pending, read_length, read_ok, read_err}
  open limits use {interrupts, calm, fewer, ends}

  long :
      (r : R) (buf : Bytes) (c : Call ℕ × R × Bytes) → io.read r buf ≡ c → length c.2 ≡ length buf
  long r buf c e = rw (← e) (read_length r buf)

  ends_here :
      (r : R) (buf : Bytes) (r' : R) (buf' : Bytes)
      → io.read r buf ≡ (ok 0, r', buf')
      → (length buf ≡ 0) ⊎ (pending r ≡ [])
  ends_here r [] r' buf' e = inl refl
  ends_here r (b ∷ buf) r' buf' e = inr (ends r (b ∷ buf) r' buf' (omega arith) e)

  call-Delivers :
      (r : R) (buf : Bytes) (c : Call ℕ × R × Bytes)
      → io.read r buf ≡ c
      → Delivers pending interrupts r buf c
  call-Delivers r buf (ok zero, r', buf') e =
      let (few, same) = read_ok r buf 0 r' buf' e in
      (long r buf _ e, (few, (same, (calm r buf 0 r' buf' e, inr (ends_here r buf r' buf' e)))))
  call-Delivers r buf (ok (suc n), r', buf') e =
      let (few, same) = read_ok r buf (suc n) r' buf' e in
      (long r buf _ e, (few, (same, (calm r buf (suc n) r' buf' e, inl (omega arith)))))
  call-Delivers r buf (err interrupted, r', buf') e =
      (long r buf _ e, (read_err r buf interrupted r' buf' e, fewer r buf r' buf' e))
  call-Delivers r buf (err k, r', buf') e = (long r buf _ e, (read_err r buf k r' buf' e, tt))
  call-Delivers r buf (panic, r', buf') e = long r buf _ e

  pub laws-Delivers : (r : R) (buf : Bytes) → Delivers pending interrupts r buf (io.read r buf)
  laws-Delivers r buf = call-Delivers r buf _ refl
