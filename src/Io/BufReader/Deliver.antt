-- ===== src/Io/BufReader/Deliver.antt =====
-- io/buffered.rs: a `BufReader` delivers the bytes of its inner reader, in order and none twice.
use mathlib.Core.List.{append_assoc}
use native.Mathlib.Nat.{sub-zero}
use rust_libstd.Prelude.{
  ℕ, ◌+◌, ◌-◌, ◌≤◌, ◌<◌, ◌^◌, ◌≡◌, refl, sym, ap, ◌∙◌, min, true, ◌&&◌, leb, ◌==◌, [], ◌++◌, length,
  take, drop, drop_add, drop-take, length-take, take-append-drop, arith, Bool-cases, inl, inr,
}
use rust_libstd.Prelude.Words.{add64}
use rust_libstd.Io.Error.{Call, ok, err, panic}
use rust_libstd.Io.Writer.{Bytes}
use rust_libstd.Io.Reader.{Read, ReadLaws}
use rust_libstd.Io.Slice
use rust_libstd.Io.Slice.Reading.{take-copy}
use rust_libstd.Io.BufReader.{
  BufReader, unread, consume, refilled, fill_buf, read_filled, bypassed, read,
}

-- The bounds of the positions; a buffer has at most `isize::MAX` bytes.
abbrev pub IsBufReader : {R : Type 0} → BufReader R → Type 0
IsBufReader s = (s.pos ≤ s.cap) × (s.cap ≤ length s.buf) × (length s.buf < 2 ^ 63)

module _ {R : Type 0} (io : Read R) (laws : ReadLaws io) where
  open laws use {pending, read_length, read_ok, read_err}

  -- What is still to be delivered.
  abbrev pub remaining : BufReader R → Bytes
  remaining s = unread s ++ pending s.inner

  -- What holds of a call of `fill_buf`.
  abbrev Filled : BufReader R → Call Bytes × BufReader R → Type 0
  Filled self (ok b, s) = (b ≡ unread s) × (remaining s ≡ remaining self) × IsBufReader s
  Filled self (err e, s) = (remaining s ≡ remaining self) × IsBufReader s
  Filled self (panic, s) = Unit

  -- What holds of a call of `read` on a buffer of `n` bytes.
  abbrev pub Delivered : BufReader R → ℕ → Call ℕ × BufReader R × Bytes → Type 0
  Delivered self len (ok n, s, out) =
      (n ≤ len) × (remaining self ≡ take n out ++ remaining s) × IsBufReader s
  Delivered self len (err e, s, out) = (remaining s ≡ remaining self) × IsBufReader s
  Delivered self len (panic, s, out) = Unit

  unread_none : (self : BufReader R) → self.cap ≤ self.pos → unread self ≡ []
  unread_none self h = let gone : self.cap - self.pos ≡ 0 = omega arith in rw gone refl

  refilled-Filled :
      (self : BufReader R) (r : Call ℕ × R × Bytes)
      → IsBufReader self
      → self.cap ≤ self.pos
      → io.read self.inner self.buf ≡ r
      → Filled self (refilled io self r)
  refilled-Filled self (ok n, r, buf) is h e =
      let (few, delivered) = read_ok self.inner self.buf n r buf e in
      let len : length buf ≡ length self.buf =
        ap (λ (c : Call ℕ × R × Bytes). length c.2) (sym e) ∙ read_length self.inner self.buf in
      let fits : leb n (length buf) ≡ true = ground arith in
      rw fits (refl, rw (unread_none self h, sub-zero) (sym delivered), omega (arith, is, len))
  refilled-Filled self (err k, r, buf) is h e =
      let len : length buf ≡ length self.buf =
        ap (λ (c : Call ℕ × R × Bytes). length c.2) (sym e) ∙ read_length self.inner self.buf in
      let none_left : unread (record self { inner = r; buf = buf }) ≡ [] =
        unread_none (record self { inner = r; buf = buf }) h in
      (
        rw (none_left, unread_none self h) (read_err self.inner self.buf k r buf e),
        omega (arith, is, len),
      )
  refilled-Filled self (panic, r, buf) is h e = tt

  fill_buf-Filled : (self : BufReader R) → IsBufReader self → Filled self (fill_buf io self)
  unfolding fill_buf
  fill_buf-Filled self is = elim (Bool-cases (leb self.cap self.pos)) [
    | inl used_up ↦ rw used_up (refilled-Filled self _ is (ground arith) refl)
    | inr left ↦
        let fits : leb self.cap (length self.buf) ≡ true = ground arith in
        rw (left, fits) (refl, refl, is)
  ]

  unread-consume :
      (s : BufReader R) (m : ℕ)
      → IsBufReader s
      → m ≤ length (unread s)
      → (unread s ≡ take m (unread s) ++ unread (consume m s)) × IsBufReader (consume m s)
  unfolding consume
  unread-consume s m is h =
      let most : m ≤ s.cap - s.pos =
        omega (arith, length-take (s.cap - s.pos) (drop s.pos s.buf)) in
      let at : min (add64 s.pos m) s.cap ≡ s.pos + m = omega (arith, is) in
      let left : s.cap - s.pos - m ≡ s.cap - (s.pos + m) = omega arith in
      let behind : drop m (unread s) ≡ take (s.cap - (s.pos + m)) (drop (s.pos + m) s.buf) =
        rw (drop-take, drop_add, left) refl in
      rw at (rw (← behind) (sym (take-append-drop m (unread s))), omega (arith, is))

  read_filled-Delivered :
      (self : BufReader R) (buf : Bytes) (f : Call Bytes × BufReader R)
      → Filled self f
      → Delivered self (length buf) (read_filled io buf f)
  unfolding Slice.read consume
  read_filled-Delivered self buf (ok b, s) (same, kept, is) =
      let m = min (length buf) (length b) in
      let (parts, after) = unread-consume s m is (rw (← same) (omega arith)) in
      let got : length (take m b) ≡ m = omega (arith, length-take m b) in
      let front = take-copy m (take m b) buf got (omega arith) in
      (
        omega arith,
        sym kept ∙ ap (λ bs. bs ++ pending s.inner) parts ∙ rw (front, same, append_assoc) refl,
        after,
      )
  read_filled-Delivered self buf (err e, s) h = h
  read_filled-Delivered self buf (panic, s) h = tt

  bypassed-Delivered :
      (self : BufReader R) (buf : Bytes) (r : Call ℕ × R × Bytes)
      → IsBufReader self
      → self.cap ≤ self.pos
      → io.read self.inner buf ≡ r
      → Delivered self (length buf) (bypassed io self r)
  bypassed-Delivered self buf (ok n, r, out) is h e =
      let (few, delivered) = read_ok self.inner buf n r out e in
      (few, rw (unread_none self h) delivered, is)
  bypassed-Delivered self buf (err k, r, out) is h e =
      (rw (unread_none self h) (read_err self.inner buf k r out e), is)
  bypassed-Delivered self buf (panic, r, out) is h e = tt

  -- A read on a BufReader whose positions are in bounds, over an inner reader that keeps its
  -- contract: if it returns n, then n is at most the length of the argument, and the bytes still to
  -- be delivered, the unread ones of the buffer and then those of the inner reader, were the first
  -- n bytes of the argument followed by the bytes still to be delivered afterwards; if it returns
  -- an error, they are the same; in both cases the positions stay in bounds.
  pub read-Delivered :
      (self : BufReader R) (buf : Bytes)
      → IsBufReader self
      → Delivered self (length buf) (read io self buf)
  unfolding read
  read-Delivered self buf is =
      elim (Bool-cases ((self.pos == self.cap) && leb (length self.buf) (length buf))) [
        | inl large ↦ rw large (bypassed-Delivered self buf _ is (ground arith) refl)
        | inr small ↦ rw small (read_filled-Delivered self buf _ (fill_buf-Filled self is))
      ]
