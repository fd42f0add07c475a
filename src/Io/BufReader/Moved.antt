-- ===== src/Io/BufReader/Moved.antt =====
-- io/buffered.rs: a seek of a `BufReader` from the current position counts the bytes that are
-- buffered and not yet read, in one seek of the inner reader or in two.
use rust_libstd.Prelude.{ℕ, ◌-◌, ◌≡◌, refl, ◌∙◌, ap, some, Option-cases, arith, inl, inr}
use rust_libstd.Prelude.Int.{ℤ, pos, ◌+ℤ◌, ◌-ℤ◌}
use rust_libstd.Io.Error.{Call, ok, err, panic}
use rust_libstd.Io.Reader.{Seek, SeekLaws}
use rust_libstd.Io.Cursor.{current}
use rust_libstd.Io.BufReader.{BufReader, checked_sub_i64, emptied, twice, seek}

checked_sub_i64-some : (a b d : ℤ) → checked_sub_i64 a b ≡ some d → a -ℤ b ≡ d
unfolding ◌-ℤ◌
checked_sub_i64-some a b d e = ground arith

at_once : (p a n d : ℤ) → n -ℤ a ≡ d → p +ℤ d ≡ (p -ℤ a) +ℤ n
unfolding ◌+ℤ◌ ◌-ℤ◌
at_once p a n d e = ground arith

in_two : (p a : ℤ) → p +ℤ (pos 0 -ℤ a) ≡ p -ℤ a
unfolding ◌+ℤ◌ ◌-ℤ◌
in_two p a = ground arith

module _ {R : Type 0} (io : Seek R) (laws : SeekLaws io) where
  open laws use {position, seek_current}

  emptied-position :
      (self : BufReader R) (k : ℤ) (c : Call ℕ × R) (p : ℕ) (s : BufReader R)
      → io.seek self.inner (current k) ≡ c
      → emptied io self c ≡ (ok p, s)
      → (pos p ≡ pos (position self.inner) +ℤ k) × (position s.inner ≡ p) × (s.pos ≡ s.cap)
  emptied-position self k (ok n, r) p s e h =
      let (moved, at) = seek_current self.inner k n r e in
      let same : record self { inner = r; pos = self.cap } ≡ s = cc in
      let count : n ≡ p = cc in rw (← same, ← count) (moved, at, refl)
  emptied-position self k (err c, r) p s e h = cc
  emptied-position self k (panic, r) p s e h = cc

  twice-position :
      (self : BufReader R) (n k : ℤ) (c : Call ℕ × R) (p : ℕ) (s : BufReader R)
      → io.seek self.inner (current k) ≡ c
      → twice io self n c ≡ (ok p, s)
      → (pos p ≡ (pos (position self.inner) +ℤ k) +ℤ n) × (position s.inner ≡ p) × (s.pos ≡ s.cap)
  twice-position self n k (ok q, r) p s e h =
      let (moved, at) = seek_current self.inner k q r e in
      let (again, after, empty) =
        emptied-position (record self { inner = r; pos = self.cap }) n _ p s refl h in
      (again ∙ rw (at, moved) refl, after, empty)
  twice-position self n k (err c, r) p s e h = cc
  twice-position self n k (panic, r) p s e h = cc

  -- Where a seek of a BufReader by n from the current position succeeds, over an inner reader whose
  -- seeks keep their contract, it returns the position of the inner reader less the unread bytes of
  -- the buffer, plus n, over the integers; the inner reader stands there and the buffer is empty.
  pub seek-position :
      (self : BufReader R) (n : ℤ) (p : ℕ) (s : BufReader R)
      → seek io self (current n) ≡ (ok p, s)
      → (pos p ≡ (pos (position self.inner) -ℤ pos (self.cap - self.pos)) +ℤ n)
        × (position s.inner ≡ p)
        × (s.pos ≡ s.cap)
  unfolding seek
  seek-position self n p s h =
      let a = pos (self.cap - self.pos) in
      elim (Option-cases (checked_sub_i64 n a)) [
        | inl underflow ↦
            let (moved, at, empty) =
              twice-position self n (pos 0 -ℤ a) _ p s refl (rw underflow at h) in
            (moved ∙ ap (λ z. z +ℤ n) (in_two (pos (position self.inner)) a), at, empty)
        | inr (d, fits) ↦
            let (moved, at, empty) = emptied-position self d _ p s refl (rw fits at h) in
            (
              moved ∙ at_once (pos (position self.inner)) a n d (checked_sub_i64-some n a d fits),
              at,
              empty,
            )
      ]
