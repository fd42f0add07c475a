-- ===== src/Io/Adapters/Chaining.antt =====
-- io/mod.rs: a `Chain` keeps the contract of `Read`, and delivers the first reader and then the
-- second.
use mathlib.Core.List.{append_assoc}
use rust_libstd.Prelude.{
  ℕ, zero, suc, ◌+◌, ◌≤◌, ◌<◌, ◌≡◌, ◌⊎◌, inl, inr, refl, Bool, true, false, ◌==◌, if◌then◌else◌, [],
  ◌++◌, length, take, arith, Bool-cases,
}
use rust_libstd.Io.Error.{Call, ok, err, panic}
use rust_libstd.Io.Writer.{Bytes}
use rust_libstd.Io.Reader.{Read, ReadLaws, ReadEnds}
use rust_libstd.Io.Reader.Contract.{
  Fewer-add, Fewer-add_left, Delivers, Delivers-after, laws-Delivers, contract_laws, contract_ends,
}
use rust_libstd.Io.Provided.{read_to_end}
use rust_libstd.Io.Provided.Ending.{Ended, read_to_end-Ended}
use rust_libstd.Io.Adapters.{
  Chain, chain, second_found, second_read, first_found, chain_read, chain_reader,
}

module _ {T U : Type 0} (io : Read T) (laws : ReadLaws io) (limits : ReadEnds io laws)
    (io' : Read U) (laws' : ReadLaws io') (limits' : ReadEnds io' laws') where
  abbrev pub chain_pending : Chain T U → Bytes
  chain_pending self =
      if self.done_first
      then laws'.pending self.second
      else laws.pending self.first ++ laws'.pending self.second

  abbrev pub chain_interrupts : Chain T U → ℕ
  chain_interrupts self = limits.interrupts self.first + limits'.interrupts self.second

  second_found-Delivers :
      (self : Chain T U) (buf : Bytes) (c : Call ℕ × U × Bytes)
      → self.done_first ≡ true
      → Delivers laws'.pending limits'.interrupts self.second buf c
      → Delivers chain_pending chain_interrupts self buf (second_found self c)
  second_found-Delivers self buf (ok n, u, buf') done (long, (few, (same, (quiet, why)))) =
      (long, (few, (rw done same, (omega (arith, quiet), rw done why))))
  second_found-Delivers self buf (err e, u, buf') done (long, (same, less)) =
      (long, (rw done same, Fewer-add_left e _ _ _ _ (omega arith) less))
  second_found-Delivers self buf (panic, u, buf') done long = long

  over : (p buf : Bytes) → (0 < 0) ⊎ ((length buf ≡ 0) ⊎ (p ≡ [])) → 0 < length buf → p ≡ []
  over p buf (inl moved) more = absurd (omega arith)
  over p buf (inr (inl bare)) more = absurd (omega (arith, bare))
  over p buf (inr (inr none_left)) more = none_left

  first_found-Delivers :
      (self : Chain T U) (buf : Bytes) (c : Call ℕ × T × Bytes)
      → self.done_first ≡ false
      → Delivers laws.pending limits.interrupts self.first buf c
      → Delivers chain_pending chain_interrupts self buf (first_found io io' self c)
  first_found-Delivers self buf (ok zero, t, buf') done (long, (few, (same, (quiet, why)))) =
      elim (Bool-cases (length buf' == 0)) [
        | inl bare ↦
            let none_asked : length buf' ≡ 0 = ground arith in
            rw bare (
              long,
              (few, (rw done (rw same refl), (omega (arith, quiet), inr (inl (omega arith))))),
            )
        | inr asked ↦
            let more : 0 < length buf' = ground arith in
            let next = record self { first = t; done_first = true } in
            rw asked (
              Delivers-after chain_pending chain_interrupts self next buf buf'
                (second_read io io' next buf') long
                (rw done (rw (over (laws.pending self.first) buf why (omega (arith, long))) refl))
                (omega (arith, quiet))
                (second_found-Delivers next buf' (io'.read self.second buf') refl
                  (laws-Delivers io' laws' limits' self.second buf')))
      ]
  first_found-Delivers self buf (ok (suc n), t, buf') done (long, (few, (same, (quiet, why)))) = (
    long,
    (
      few,
      (
        rw done (
            rw same
              (append_assoc (take (suc n) buf') (laws.pending t) (laws'.pending self.second))),
        (omega (arith, quiet), inl (omega arith)),
      ),
    ),
  )
  first_found-Delivers self buf (err e, t, buf') done (long, (same, less)) =
      (long, (rw done (rw same refl), Fewer-add e _ _ _ _ (omega arith) less))
  first_found-Delivers self buf (panic, t, buf') done long = long

  either-Delivers :
      (self : Chain T U) (buf : Bytes) (b : Bool)
      → self.done_first ≡ b
      → Delivers chain_pending chain_interrupts self buf (
          if b
          then second_read io io' self buf
          else first_found io io' self (io.read self.first buf))
  either-Delivers self buf true done =
      second_found-Delivers self buf (io'.read self.second buf) done
        (laws-Delivers io' laws' limits' self.second buf)
  either-Delivers self buf false not_done =
      first_found-Delivers self buf (io.read self.first buf) not_done
        (laws-Delivers io laws limits self.first buf)

  pub chain_read-Delivers :
      (self : Chain T U) (buf : Bytes)
      → Delivers chain_pending chain_interrupts self buf (chain_read io io' self buf)
  unfolding chain_read
  chain_read-Delivers self buf = either-Delivers self buf self.done_first refl

  abbrev pub chain_laws : ReadLaws (chain_reader io io')
  chain_laws =
      contract_laws chain_pending chain_interrupts (chain_reader io io') chain_read-Delivers

  abbrev pub chain_ends : ReadEnds (chain_reader io io') chain_laws
  chain_ends =
      contract_ends chain_pending chain_interrupts (chain_reader io io') chain_read-Delivers

  -- Over a Chain of two readers that keep their contracts, with spare capacity of at least 32 bytes
  -- and fuel above the pending bytes and interruptions of both, read_to_end returns: with success
  -- it has appended what the first had to deliver and then what the second had; an error or a panic
  -- is one of read of the Chain, and the vector has a first part of that.
  pub read_to_end-chain :
      (spare : ℕ → Bytes)
      → ((n : ℕ) → 32 ≤ length (spare n))
      → (fuel : ℕ) (t : T) (u : U) (buf : Bytes)
      → length (laws.pending t ++ laws'.pending u) + (limits.interrupts t + limits'.interrupts u)
        < fuel
      → Ended
          (chain_reader io io')
          chain_laws
          chain_ends
          (laws.pending t ++ laws'.pending u)
          buf
          (length buf)
          (read_to_end (chain_reader io io') spare fuel (chain t u) buf)
  read_to_end-chain spare reserved fuel t u buf h =
      read_to_end-Ended (chain_reader io io') chain_laws chain_ends spare reserved fuel (chain t u)
        buf h
