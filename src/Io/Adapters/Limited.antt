-- ===== src/Io/Adapters/Limited.antt =====
-- io/mod.rs: a `Take` keeps the contract of `Read`, and delivers the first bytes of its reader.
use rust_libstd.Prelude.{
  ℕ, ◌+◌, ◌-◌, ◌^◌, ◌≤◌, ◌<◌, ◌≡◌, inl, inr, refl, ◌∙◌, ap, ◌==◌, [], ◌++◌, length, take, drop, min,
  length-append, length-take, length-drop, take-append_front, take-append_le, drop-append_front,
  take_add, take_all, arith, Bool-cases,
}
use rust_libstd.Prelude.Words.{sub64}
use rust_libstd.Io.Error.{Call, ok, err, panic}
use rust_libstd.Io.Writer.{Bytes}
use rust_libstd.Io.Reader.{Read, ReadLaws, ReadEnds}
use rust_libstd.Io.Reader.Contract.{Delivers, laws-Delivers}
use rust_libstd.Io.Adapters.{Take, limited, take_read}

sub64_le : (a n : ℕ) → a < 2 ^ 64 → n ≤ a → sub64 a n ≡ a - n
sub64_le a n small le = ground arith

take-append_add :
    (n k : ℕ) (xs ys : Bytes) → length xs ≡ n → take (n + k) (xs ++ ys) ≡ xs ++ take k ys
take-append_add n k xs ys h = rw (← h, take_add, take-append_front, drop-append_front) refl

-- The limit after a read of `n` bytes.
take-less :
    (limit n : ℕ) (front back p p' : Bytes)
    → limit < 2 ^ 64
    → n ≤ limit
    → n ≤ length front
    → p ≡ take n front ++ p'
    → take limit p ≡ take n (front ++ back) ++ take (sub64 limit n) p'
take-less limit n front back p p' small le few same =
    rw (same, take-append_le n front back few, sub64_le limit n small le)
      (ap (λ k. take k (take n front ++ p')) (omega (arith, le))
        ∙ take-append_add n (limit - n) (take n front) p' (omega (arith, length-take n front)))

rejoined :
    (most : ℕ) (buf front : Bytes)
    → most ≤ length buf
    → length front ≡ length (take most buf)
    → length (front ++ drop most buf) ≡ length buf
rejoined most buf front le h =
    omega
      (arith, h, length-append front (drop most buf), length-take most buf, length-drop most buf)

module _ {T : Type 0} (io : Read T) (laws : ReadLaws io) (limits : ReadEnds io laws) where
  abbrev pub take_pending : Take T → Bytes
  take_pending self = take self.limit (laws.pending self.inner)

  abbrev pub take_interrupts : Take T → ℕ
  take_interrupts self = limits.interrupts self.inner

  limited-Delivers :
      (self : Take T) (buf : Bytes) (c : Call ℕ × T × Bytes)
      → self.limit < 2 ^ 64
      → 0 < self.limit
      → Delivers laws.pending limits.interrupts self.inner
          (take (min (length buf) self.limit) buf)
          c
      → Delivers take_pending take_interrupts self buf
          (limited self (drop (min (length buf) self.limit) buf) c)
  limited-Delivers self buf (ok n, t, front) small more (long, (few, (same, (quiet, why)))) =
      let most = min (length buf) self.limit in
      let size : length (take most buf) ≡ most = omega (arith, length-take most buf) in
      (
        rejoined most buf front (omega arith) long,
        (
          omega (arith, few, size),
          (
            take-less self.limit n front (drop most buf) (laws.pending self.inner) (laws.pending t)
                small (omega (arith, few, size)) (omega (arith, few, long)) same,
            (
              quiet,
              elim why [
                | inl moved ↦ inl moved
                | inr (inl bare) ↦ inr (inl (omega (arith, bare, size)))
                | inr (inr none_left) ↦
                    inr (inr (rw none_left (take_all self.limit [] (omega arith))))
              ],
            ),
          ),
        ),
      )
  limited-Delivers self buf (err e, t, front) small more (long, (same, less)) = (
    rejoined (min (length buf) self.limit) buf front (omega arith) long,
    (ap (take self.limit) same, less),
  )
  limited-Delivers self buf (panic, t, front) small more long =
      rejoined (min (length buf) self.limit) buf front (omega arith) long

  -- For a limit within 64 bits over a reader that keeps its contract, a read of a Take keeps the
  -- contract of Read, where what it has to deliver is the first limit bytes of what its reader has.
  pub take_read-Delivers :
      (self : Take T) (buf : Bytes)
      → self.limit < 2 ^ 64
      → Delivers take_pending take_interrupts self buf (take_read io self buf)
  unfolding take_read
  take_read-Delivers self buf small =
      let most = min (length buf) self.limit in
      elim (Bool-cases (self.limit == 0)) [
        | inl finished ↦
            let none_left : self.limit ≡ 0 = ground arith in
            rw finished (
              refl,
              (
                omega arith,
                (
                  refl,
                  (omega arith, inr (inr (ap (λ k. take k (laws.pending self.inner)) none_left))),
                ),
              ),
            )
        | inr open_yet ↦
            let some_left : 0 < self.limit = ground arith in
            rw open_yet (
              limited-Delivers self buf (io.read self.inner (take most buf)) small some_left
                (laws-Delivers io laws limits self.inner (take most buf)))
      ]
