-- ===== src/Hash/Table/Write.antt =====
-- collections/hash/table.rs: what the write of one bucket (`put`, `take`, `replace`) does to a
-- table.
use mathlib.Core.Option.{some-injective}
use mathlib.Core.Path.{subst}
use rust_libstd.Prelude.{
  ℕ, suc, ◌+◌, ◌≤◌, ◌<◌, ◌≡◌, ◌≢◌, ◌⊎◌, ◌↔◌, refl, sym, ◌∙◌, ap, true, false, Option, none, some,
  set, ◌==◌, if◌then◌else◌, get_or-set, length-set, Bool-cases, inl, inr, arith,
}
use rust_libstd.Hash.Table.{Keys, make_hash, Entry, RawTable, next, displacement, capacity, peek}
use rust_libstd.Hash.Table.Walk.{IsGentle, change-IsGentle}
use rust_libstd.Hash.Table.State.{height_of, height, fullness, full_count-set, Has, IsTable}

module _ {K V : Type 0} where
  abbrev pub write : RawTable K V → ℕ → Option (Entry K V) → ℕ → RawTable K V
  write t i o n = record t { buckets = set t.buckets i o; size = n }

  pub peek-same :
      (t : RawTable K V) (i : ℕ) (e e' : Entry K V)
      → peek t i ≡ some e
      → peek t i ≡ some e'
      → e ≡ e'
  peek-same t i e e' h h' = some-injective e e' (sym h ∙ h')

module _ {K V : Type 0} (t : RawTable K V) (i : ℕ) (hi : i < capacity t) where
  pub peek-write :
      (o : Option (Entry K V)) (n j : ℕ) → peek (write t i o n) j ≡ (if i == j then o else peek t j)
  peek-write o n j = get_or-set t.buckets i j o none hi

  pub height-write :
      (o : Option (Entry K V)) (n j : ℕ)
      → height (write t i o n) j ≡ (if i == j then height_of (capacity t) i o else height t j)
  height-write o n j = elim (Bool-cases (i == j)) [
    | inl this ↦
        let same : i ≡ j = ground arith in
        rw (length-set t.buckets i o, peek-write o n j, this, same) refl
    | inr other ↦ rw (length-set t.buckets i o, peek-write o n j, other) refl
  ]

  module _ (e : Entry K V) (n : ℕ) where
    pub write-here : peek (write t i (some e) n) i ≡ some e
    write-here =
        let this : (i == i) ≡ true = ground arith in rw (peek-write (some e) n i, this) refl

    pub height-here : height (write t i (some e) n) i ≡ suc (displacement (capacity t) i e.hash)
    height-here =
        let this : (i == i) ≡ true = ground arith in rw (height-write (some e) n i, this) refl

    pub write-there : (j : ℕ) → i ≢ j → peek (write t i (some e) n) j ≡ peek t j
    write-there j ne =
        let other : (i == j) ≡ false = ground arith in rw (peek-write (some e) n j, other) refl

    -- An element of the table after the write.
    pub write-cases :
        (j : ℕ) (x : Entry K V)
        → peek (write t i (some e) n) j ≡ some x
        → ((i ≡ j) × (x ≡ e)) ⊎ ((i ≢ j) × (peek t j ≡ some x))
    write-cases j x h = elim (Bool-cases (i == j)) [
      | inl this ↦
          let same : i ≡ j = ground arith in
          inl (
            same,
            peek-same (write t i (some e) n) j x e h
                (ap (peek (write t i (some e) n)) (sym same) ∙ write-here),
          )
      | inr other ↦ let apart : i ≢ j = ground arith in inr (apart, sym (write-there j apart) ∙ h)
    ]

    -- In an empty bucket the element is one more.
    pub fill-Has :
        peek t i ≡ none → (x : Entry K V) → Has (write t i (some e) n) x ↔ ((x ≡ e) ⊎ Has t x)
    fill-Has empty x = (
      λ (j, h). elim (write-cases j x h) [
        | inl (at, it) ↦ inl it
        | inr (apart, old) ↦ inr (j, old)
      ],
      λ or. elim or [
        | inl it ↦ (i, write-here ∙ ap some (sym it))
        | inr (j, h) ↦ (j, write-there j (λ same. cc (ap (peek t) same, h, empty)) ∙ h)
      ],
    )

    -- In a full bucket it takes the place of another.
    pub swap-Has :
        (old : Entry K V)
        → peek t i ≡ some old
        → (x : Entry K V) → ((x ≡ old) ⊎ Has (write t i (some e) n) x) ↔ ((x ≡ e) ⊎ Has t x)
    swap-Has old full x = (
      λ or. elim or [
        | inl it ↦ inr (i, full ∙ ap some (sym it))
        | inr (j, h) ↦ elim (write-cases j x h) [
          | inl (at, it) ↦ inl it
          | inr (apart, was) ↦ inr (j, was)
        ]
      ],
      λ or. elim or [
        | inl it ↦ inr (i, write-here ∙ ap some (sym it))
        | inr (j, h) ↦ elim (Bool-cases (i == j)) [
          | inl this ↦
              let same : i ≡ j = ground arith in
              inl (peek-same t j x old h (ap (peek t) (sym same) ∙ full))
          | inr other ↦ inr (j, write-there j (ground arith) ∙ h)
        ]
      ],
    )

    module _ (keys : Keys K) (inv : IsTable keys t) where
      pub write-IsTable :
          ((j : ℕ)
            → j < capacity t
            → next (capacity t) j ≡ i
            → displacement (capacity t) i e.hash ≤ height t j)
          → height t i ≤ suc (displacement (capacity t) i e.hash)
          → e.hash ≡ make_hash keys e.key
          → ((j : ℕ) (x : Entry K V) → i ≢ j → peek t j ≡ some x → x.key ≢ e.key)
          → n + fullness (peek t i) ≡ t.size + 1
          → IsTable keys (write t i (some e) n)
      write-IsTable below above hash other size = record {
        gentle =
            subst (λ c. IsGentle c (height (write t i (some e) n)))
              (sym (length-set t.buckets i (some e)))
              (change-IsGentle (capacity t) (height t) inv.gentle (height (write t i (some e) n)) i
                (suc (displacement (capacity t) i e.hash)) (λ j hj. height-write (some e) n j) hi
                (λ j hj nx. omega (arith, below j hj nx)) (omega (arith, inv.gentle i hi, above)));
        counted = omega (arith, full_count-set t.buckets i (some e) hi, size, inv.counted);
        hashed = λ j x h. elim (write-cases j x h) [
          | inl (at, it) ↦ rw it hash
          | inr (apart, h') ↦ inv.hashed j x h'
        ];
        unique = λ j j' x x' h h' same. elim (write-cases j x h) [
          | inl (at, it) ↦ elim (write-cases j' x' h') [
            | inl (at', it') ↦ sym at ∙ at'
            | inr (apart', old') ↦ absurd (other j' x' apart' old' (sym same ∙ ap (λ y. y.key) it))
          ]
          | inr (apart, old) ↦ elim (write-cases j' x' h') [
            | inl (at', it') ↦ absurd (other j x apart old (same ∙ ap (λ y. y.key) it'))
            | inr (apart', old') ↦ inv.unique j j' x x' old old' same
          ]
        ];
      }
