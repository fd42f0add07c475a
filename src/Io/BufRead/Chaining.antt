-- ===== src/Io/BufRead/Chaining.antt =====
-- io/mod.rs: `fill_buf` and `consume` of a `Chain`, which keep the contract of `BufRead`.
use mathlib.Core.List.{append_assoc}
use mathlib.Core.Path.{subst}
use rust_libstd.Prelude.{
  ℕ, zero, suc, ◌+◌, ◌≤◌, ◌<◌, ◌≡◌, ◌⊎◌, refl, sym, ap, Bool, true, false, if◌then◌else◌, [], ◌∷◌,
  ◌++◌, length, drop, length-append, arith, inl, inr,
}
use rust_libstd.Io.Error.{interrupted, Call, ok, err, panic}
use rust_libstd.Io.Writer.{Bytes}
use rust_libstd.Io.Reader.Contract.{Fewer, Fewer-le, Fewer-add}
use rust_libstd.Io.Adapters.{Chain}
use rust_libstd.Io.BufRead.{BufRead, BufReadLaws}

module _ {T U : Type 0} (io : BufRead T) (io' : BufRead U) where
  abbrev pub second_filled : Chain T U → Call Bytes × U → Call Bytes × Chain T U
  second_filled self (ret, u) = (ret, record self { second = u })

  -- On the result of `self.first.fill_buf()`.
  abbrev pub first_filled : Chain T U → Call Bytes × T → Call Bytes × Chain T U
  first_filled self (ok [], t) =
      second_filled (record self { first = t; done_first = true }) (io'.fill_buf self.second)
  first_filled self (ok (b ∷ buf), t) = (ok (b ∷ buf), record self { first = t })
  first_filled self (err e, t) = (err e, record self { first = t })
  first_filled self (panic, t) = (panic, record self { first = t })

  abbrev pub chain_fill_buf : Chain T U → Call Bytes × Chain T U
  chain_fill_buf self =
      if self.done_first
      then second_filled self (io'.fill_buf self.second)
      else first_filled self (io.fill_buf self.first)

  abbrev pub chain_consume : ℕ → Chain T U → Chain T U
  chain_consume amt self =
      if self.done_first
      then record self { second = io'.consume amt self.second }
      else record self { first = io.consume amt self.first }

  abbrev pub chain_bufread : BufRead (Chain T U)
  chain_bufread = record { fill_buf = chain_fill_buf; consume = chain_consume }

drop-append_le : (n : ℕ) (xs ys : Bytes) → n ≤ length xs → drop n (xs ++ ys) ≡ drop n xs ++ ys
drop-append_le zero xs ys h = refl
drop-append_le (suc n) [] ys h = absurd (omega arith)
drop-append_le (suc n) (x ∷ xs) ys h = drop-append_le n xs ys (omega arith)

module _ {R : Type 0} (io : BufRead R) (pending : R → Bytes) (interrupts : R → ℕ) where
  -- The contract of `fill_buf`, and of the `consume` behind it, by what `fill_buf` returns.
  abbrev pub Supplies : R → Call Bytes × R → Type 0
  Supplies r (ok b, r') =
      ((rest : Bytes) × (pending r ≡ b ++ rest))
      × ((((n : ℕ)
            → n ≤ length b
            → (pending (io.consume n r') ≡ drop n (pending r))
              × (interrupts (io.consume n r') ≤ interrupts r)))
          × ((0 < length b) ⊎ (pending r ≡ [])))
  Supplies r (err e, r') = (pending r' ≡ pending r) × Fewer e (interrupts r') (interrupts r)
  Supplies r (panic, r') = Unit

  -- A call that follows one that has left what is pending.
  Supplies-after :
      (r s : R) (c : Call Bytes × R)
      → pending s ≡ pending r
      → interrupts s ≤ interrupts r
      → Supplies s c
      → Supplies r c
  Supplies-after r s (ok b, r') same quiet ((rest, h), (after, why)) = (
    (rest, cc),
    ((λ n le. (cc ((after n le).0, same), omega (arith, quiet, (after n le).1))), rw same at why),
  )
  Supplies-after r s (err e, r') same quiet (h, less) = (cc, Fewer-le e _ _ _ quiet less)
  Supplies-after r s (panic, r') same quiet h = tt

module _ {R : Type 0} (io : BufRead R) (laws : BufReadLaws io) where
  full_or_over :
      (r r' : R) (b : Bytes) → io.fill_buf r ≡ (ok b, r') → (0 < length b) ⊎ (laws.pending r ≡ [])
  full_or_over r r' [] e = inr (laws.ends r r' e)
  full_or_over r r' (x ∷ b) e = inl (omega arith)

  call-Supplies :
      (r : R) (c : Call Bytes × R)
      → io.fill_buf r ≡ c
      → Supplies io laws.pending laws.interrupts r c
  call-Supplies r (ok b, r') e =
      (laws.fill_ok r b r' e, ((λ n le. laws.consumed r b r' n e le), full_or_over r r' b e))
  call-Supplies r (err interrupted, r') e = (laws.fill_err r interrupted r' e, laws.fewer r r' e)
  call-Supplies r (err k, r') e = (laws.fill_err r k r' e, tt)
  call-Supplies r (panic, r') e = tt

module _ {T U : Type 0} (io : BufRead T) (laws : BufReadLaws io) (io' : BufRead U)
    (laws' : BufReadLaws io') where
  abbrev pub unread : Chain T U → Bytes
  unread self =
      if self.done_first
      then laws'.pending self.second
      else laws.pending self.first ++ laws'.pending self.second

  abbrev pub interruptions : Chain T U → ℕ
  interruptions self =
      if self.done_first
      then laws'.interrupts self.second
      else laws.interrupts self.first + laws'.interrupts self.second

  second_filled-Supplies :
      (t : T) (u : U) (c : Call Bytes × U)
      → Supplies io' laws'.pending laws'.interrupts u c
      → Supplies
          (chain_bufread io io')
          unread
          interruptions
          (record { first = t; second = u; done_first = true })
          (second_filled io io' (record { first = t; second = u; done_first = true }) c)
  second_filled-Supplies t u (ok b, u') h = h
  second_filled-Supplies t u (err e, u') h = h
  second_filled-Supplies t u (panic, u') h = tt

  first_filled-Supplies :
      (t : T) (u : U) (c : Call Bytes × T)
      → Supplies io laws.pending laws.interrupts t c
      → Supplies
          (chain_bufread io io')
          unread
          interruptions
          (record { first = t; second = u; done_first = false })
          (first_filled io io' (record { first = t; second = u; done_first = false }) c)
  first_filled-Supplies t u (ok [], t') (kept, (after, why)) =
      let over : laws.pending t ≡ [] = elim why [
        | inl more ↦ absurd (omega arith)
        | inr nothing ↦ nothing
      ] in
      Supplies-after (chain_bufread io io') unread interruptions
        (record { first = t; second = u; done_first = false })
        (record { first = t'; second = u; done_first = true }) _ (rw over refl) (omega arith)
        (second_filled-Supplies t' u (io'.fill_buf u) (call-Supplies io' laws' u _ refl))
  first_filled-Supplies t u (ok (b ∷ buf), t') ((rest, same), (after, why)) = (
    (rest ++ laws'.pending u, rw same (append_assoc (b ∷ buf) rest (laws'.pending u))),
    (
      (λ n le. (
        rw (after n le).0 (
            sym (
              drop-append_le n (laws.pending t) (laws'.pending u)
                (omega (arith, le, ap length same, length-append (b ∷ buf) rest)))),
        omega (arith, (after n le).1),
      )),
      inl (omega arith),
    ),
  )
  first_filled-Supplies t u (err e, t') (same, less) =
      (rw same refl, Fewer-add e _ _ _ _ (omega arith) less)
  first_filled-Supplies t u (panic, t') h = tt

  chain_fill_buf-Supplies :
      (t : T) (u : U) (b : Bool)
      → Supplies
          (chain_bufread io io')
          unread
          interruptions
          (record { first = t; second = u; done_first = b })
          (chain_fill_buf io io' (record { first = t; second = u; done_first = b }))
  chain_fill_buf-Supplies t u true =
      second_filled-Supplies t u (io'.fill_buf u) (call-Supplies io' laws' u _ refl)
  chain_fill_buf-Supplies t u false =
      first_filled-Supplies t u (io.fill_buf t) (call-Supplies io laws t _ refl)

  supplied :
      (self : Chain T U) (c : Call Bytes × Chain T U)
      → chain_fill_buf io io' self ≡ c
      → Supplies (chain_bufread io io') unread interruptions self c
  supplied self c e =
      subst (Supplies (chain_bufread io io') unread interruptions self) e
        (chain_fill_buf-Supplies self.first self.second self.done_first)

  chain_over :
      (self : Chain T U) (after : Chain T U)
      → Supplies (chain_bufread io io') unread interruptions self (ok [], after)
      → unread self ≡ []
  chain_over self after (kept, (next, why)) = elim why [
    | inl more ↦ absurd (omega arith)
    | inr over ↦ over
  ]

  -- A `Chain` is a `BufRead` that delivers what the first has and then what the second has.
  pub chain_bufread_laws : BufReadLaws (chain_bufread io io')
  chain_bufread_laws = record {
    pending = unread;
    interrupts = interruptions;
    fill_ok = λ r b r' e. (supplied r (ok b, r') e).0;
    consumed = λ r b r' n e le. (supplied r (ok b, r') e).1.0 n le;
    ends = λ r r' e. chain_over r r' (supplied r (ok [], r') e);
    fill_err = λ r e r' h. (supplied r (err e, r') h).0;
    fewer = λ r r' h. (supplied r (err interrupted, r') h).1;
  }
