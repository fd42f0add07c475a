-- ===== src/Io/Cursor/Written.antt =====
-- io/cursor.rs: what a write leaves at each index.
use mathlib.Core.List.{append-nil, append_assoc}
use rust_libstd.Prelude.{
  ◌∙◌, ℕ, ◌+◌, ◌-◌, ◌≤◌, ◌<◌, ◌≡◌, min, max, refl, ltb, leb, if◌then◌else◌, Option, none, some,
  ◌++◌, length, take, drop, get_elem?, arith, length-append, length-take, length-drop,
  length-replicate, get_elem?-append, get_elem?-take, get_elem?-drop, get_elem?-replicate,
  get_elem?-none, take_all, drop_all, drop_add, ◌&&◌, take-append-drop, true, false, Bool-cases,
  inl, inr,
}
use rust_libstd.Prelude.Words.{u64_mod, add64}
use rust_libstd.Io.Error.{ok}
use rust_libstd.Io.Writer.{Bytes}
use rust_libstd.Io.Slice
use rust_libstd.Io.Cursor.{Cursor, isize_max, resized, write_vec, write_slice}

pub length-resized : (inner : Bytes) (at : ℕ) → length (resized inner at) ≡ max at (length inner)
length-resized inner at = elim (Bool-cases (ltb (length inner) at)) [
  | inl short ↦ rw (short, length-append, length-replicate) (ground arith)
  | inr long ↦ rw long (ground arith)
]

get_elem?-resized :
    (inner : Bytes) (at i : ℕ)
    → get_elem? (resized inner at) i
      ≡ (if ltb i (length inner) then get_elem? inner i else if ltb i at then some 0 else none)
get_elem?-resized inner at i = elim (Bool-cases (ltb (length inner) at)) [
  | inl short ↦ rw (short, get_elem?-append, get_elem?-replicate) (ground arith)
  | inr long ↦ rw long (ground (arith, get_elem?-none inner i))
]

-- `b` at `p`, over `g`.
abbrev pub splice : Bytes → ℕ → Bytes → Bytes
splice g p b = take p g ++ (b ++ drop (p + length b) g)

-- The two parts that are written, the one over what is there and the one behind it.
splice-split :
    (g : Bytes) (p : ℕ) (b : Bytes)
    → p ≤ length g
    → let k = min (length g - p) (length b) in
      (take p g ++ (take k b ++ drop (p + length (take k b)) g)) ++ drop k b ≡ splice g p b
splice-split g p b h = elim (Bool-cases (leb (length b) (length g - p))) [
  | inl within ↦
      let all : min (length g - p) (length b) ≡ length b = ground arith in
      rw (all, take_all (length b) b (omega arith), drop_all (length b) b (omega arith), append-nil)
  | inr beyond ↦
      let some_of : min (length g - p) (length b) ≡ length g - p = ground arith in
      let longer : length g - p ≤ length b = ground arith in
      let part : length (take (length g - p) b) ≡ length g - p =
        omega (arith, length-take (length g - p) b, longer) in
      rw
        (
          some_of,
          part,
          drop_all (p + (length g - p)) g (omega arith),
          drop_all (p + length b) g (omega arith),
          append-nil,
          append-nil,
          append_assoc,
          take-append-drop,
        )
        refl
]

pub length-splice :
    (g : Bytes) (p : ℕ) (b : Bytes) → p + length b ≤ length g → length (splice g p b) ≡ length g
length-splice g p b h = omega (
  arith,
  length-append (take p g) (b ++ drop (p + length b) g),
  length-append b (drop (p + length b) g),
  length-take p g,
  length-drop (p + length b) g,
)

get_elem?-splice :
    (g : Bytes) (p : ℕ) (b : Bytes) (i : ℕ)
    → p ≤ length g
    → get_elem? (splice g p b) i ≡ (
        if ltb i p
        then get_elem? g i
        else if ltb i (p + length b)
        then get_elem? b (i - p)
        else get_elem? g i)
get_elem?-splice g p b i h =
    let front : length (take p g) ≡ p = omega (arith, length-take p g) in
    rw (get_elem?-append, get_elem?-append, front, get_elem?-take, get_elem?-drop)
      elim (Bool-cases (ltb i p)) [
        | inl low ↦ rw low
        | inr high ↦ elim (Bool-cases (ltb (i - p) (length b))) [
          | inl within ↦
              let upto : ltb i (p + length b) ≡ true = ground arith in rw (high, within, upto)
          | inr behind ↦
              let over : ltb i (p + length b) ≡ false = ground arith in
              let same : p + length b + (i - p - length b) ≡ i = ground arith in
              rw (high, behind, over, same)
        ]
      ]

-- The bytes `bytes` at `at`, over `inner` that is filled up with zeros.
abbrev pub overlay : Bytes → ℕ → Bytes → ℕ → Option ℕ
overlay inner at bytes i =
    if ltb i at
    then if ltb i (length inner) then get_elem? inner i else some 0
    else if ltb i (at + length bytes)
    then get_elem? bytes (i - at)
    else get_elem? inner i

pub write_vec-splice :
    (self : Cursor Bytes) (bytes : Bytes)
    → length self.inner ≤ isize_max
    → self.pos + length bytes ≤ isize_max
    → write_vec self bytes ≡ (
      ok (length bytes),
      record {
        inner = splice (resized self.inner self.pos) self.pos bytes;
        pos = self.pos + length bytes;
      },
    )
unfolding write_vec
write_vec-splice self bytes l h =
    let g = resized self.inner self.pos in
    let k = min (length g - self.pos) (length bytes) in
    let len : length g ≡ max self.pos (length self.inner) = length-resized self.inner self.pos in
    let in_range : ltb isize_max self.pos ≡ false = ground arith in
    let fits : ltb isize_max (length g + length (drop k bytes)) ≡ false =
      ground (arith, length-drop k bytes, len) in
    let moves : add64 self.pos (length bytes) ≡ self.pos + length bytes = omega arith in
    rw (in_range, fits, moves, splice-split g self.pos bytes (omega (arith, len))) refl

-- Where a write to a Cursor over a vector ends within isize::MAX, it takes all the bytes and moves
-- the position behind them; each index then holds the written byte in their range, elsewhere what
-- it held, and a zero between the old end and the position.
pub write_vec-overlay :
    (self : Cursor Bytes) (bytes : Bytes) (i : ℕ)
    → length self.inner ≤ isize_max
    → self.pos + length bytes ≤ isize_max
    → let (ret, after) = write_vec self bytes in
      (ret ≡ ok (length bytes))
      × (after.pos ≡ self.pos + length bytes)
      × (get_elem? after.inner i ≡ overlay self.inner self.pos bytes i)
unfolding write_vec
write_vec-overlay self bytes i l h = rw (write_vec-splice self bytes l h) (
  refl,
  refl,
  get_elem?-splice (resized self.inner self.pos) self.pos bytes i
        (omega (arith, length-resized self.inner self.pos))
      ∙ rw get_elem?-resized (ground (arith, get_elem?-none self.inner i)),
)

-- A write to a Cursor over a slice takes as many bytes as fit behind the position, which moves by
-- that number; the length stays, and each index holds the written byte in their range and elsewhere
-- what it held, provided the position and the number of bytes add up within 64 bits.
write_slice-overlay :
    (self : Cursor Bytes) (bytes : Bytes) (i : ℕ)
    → self.pos + length bytes < u64_mod
    → let (ret, after) = write_slice self bytes in
      let amt = min (length bytes) (length self.inner - self.pos) in
      (ret ≡ ok amt)
      × (after.pos ≡ self.pos + amt)
      × (length after.inner ≡ length self.inner)
      × (get_elem? after.inner i ≡ (
          if leb self.pos i && ltb i (self.pos + amt)
          then get_elem? bytes (i - self.pos)
          else get_elem? self.inner i))
unfolding write_slice Slice.write
write_slice-overlay self bytes i h =
    let at = min self.pos (length self.inner) in
    let amt = min (length bytes) (length self.inner - self.pos) in
    let count : min (length bytes) (length (drop at self.inner)) ≡ amt =
      ground (arith, length-drop at self.inner) in
    let put : length (take amt bytes) ≡ amt = ground (arith, length-take amt bytes) in
    let spliced : (take at self.inner ++ take amt bytes) ++ drop amt (drop at self.inner)
        ≡ splice self.inner at (take amt bytes) =
      rw (put, drop_add, append_assoc) refl in
    let fits = length-splice self.inner at (take amt bytes) (omega (arith, put)) in
    rw (count, spliced)
      (
        refl,
        omega arith,
        fits,
        get_elem?-splice self.inner at (take amt bytes) i (omega arith)
            ∙ rw (put, get_elem?-take) (ground (arith, get_elem?-none self.inner i)),
      )
