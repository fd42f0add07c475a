-- ===== src/Io/Slice/Reading.antt =====
-- io/impls.rs: what a read from a slice copies.
use rust_libstd.Prelude.{
  ℕ, ◌≤◌, ◌≡◌, refl, min, ◌==◌, [], ◌∷◌, ◌++◌, length, take, drop, set, get_or, take-append_front,
  drop-append_front, drop_all, length-append, arith, Bool-cases, inl, inr,
}
use mathlib.Core.List.{append-nil}
use rust_libstd.Io.Error.{ok}
use rust_libstd.Io.Writer.{Bytes}
use rust_libstd.Io.Slice.{copy, read}

one : (a buf : Bytes) → length a ≡ 1 → length buf ≡ 1 → set buf 0 (get_or a 0 0) ≡ a
one [] buf h k = absurd (omega arith)
one (x ∷ y ∷ a) buf h k = absurd (omega arith)
one (x ∷ []) [] h k = absurd (omega arith)
one (x ∷ []) (b ∷ []) h k = refl
one (x ∷ []) (b ∷ c ∷ buf) h k = absurd (omega arith)

one_front : (a buf : Bytes) → length a ≡ 1 → 1 ≤ length buf → take 1 (set buf 0 (get_or a 0 0)) ≡ a
one_front [] buf h k = absurd (omega arith)
one_front (x ∷ y ∷ a) buf h k = absurd (omega arith)
one_front (x ∷ []) [] h k = absurd (omega arith)
one_front (x ∷ []) (b ∷ buf) h k = refl

-- The bytes that `copy` puts in front.
pub take-copy : (n : ℕ) (a buf : Bytes) → length a ≡ n → n ≤ length buf → take n (copy n a buf) ≡ a
take-copy n a buf h k = elim (Bool-cases (n == 1)) [
  | inl is_one ↦
      let unit : n ≡ 1 = ground arith in
      rw (is_one, unit) (one_front a buf (omega (arith, h, unit)) (omega (arith, k, unit)))
  | inr more ↦ rw (more, ← h) (take-append_front a (drop (length a) buf))
]

copy_whole : (n : ℕ) (a buf : Bytes) → length a ≡ n → length buf ≡ n → copy n a buf ≡ a
copy_whole n a buf h k = elim (Bool-cases (n == 1)) [
  | inl is_one ↦ rw is_one (one a buf (ground arith) (ground arith))
  | inr more ↦ rw (more, drop_all n buf (omega arith), append-nil)
]

-- A buffer as long as a front of the slice gets that front.
pub read_front :
    (a rest buf : Bytes) → length buf ≡ length a → read (a ++ rest) buf ≡ (ok (length a), rest, a)
unfolding read
read_front a rest buf h =
    let amt : min (length buf) (length (a ++ rest)) ≡ length a =
      omega (arith, length-append a rest) in
    rw (amt, take-append_front, drop-append_front, copy_whole (length a) a buf refl h)
