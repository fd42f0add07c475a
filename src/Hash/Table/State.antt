-- ===== src/Hash/Table/State.antt =====
-- collections/hash/table.rs: when a table is in order, and what it holds.
use rust_libstd.Prelude.{
  ℕ, zero, suc, ◌+◌, ◌≤◌, ◌<◌, ◌≡◌, ◌≢◌, ◌↔◌, ◌⊎◌, refl, sym, true, Option, none, some, List, [],
  ◌∷◌, length, set, get_or, length-replicate, arith,
}
use rust_libstd.Hash.Table.{
  Keys, make_hash, Entry, RawTable, new, next, displacement, capacity, peek,
}
use rust_libstd.Hash.Table.Walk.{IsGentle}

pub record KeyLaws {K : Type 0} (keys : Keys K) : Type 0 where
  pub eq_iff : (a b : K) → (keys.eq a b ≡ true) ↔ (a ≡ b)

pub eq-Matches :
    {K : Type 0} (keys : Keys K) → KeyLaws keys → (k x : K) → (keys.eq k x ≡ true) ↔ (x ≡ k)
eq-Matches keys laws k x = (λ e. sym ((laws.eq_iff k x).0 e), λ e. (laws.eq_iff k x).1 (sym e))

module _ {K V : Type 0} where
  abbrev pub height_of : ℕ → ℕ → Option (Entry K V) → ℕ
  height_of c i none = 0
  height_of c i (some e) = suc (displacement c i e.hash)

  abbrev pub height : RawTable K V → ℕ → ℕ
  height t i = height_of (capacity t) i (peek t i)

  -- An element with displacement `d` fits at the bucket `i`: the one before is as high.
  abbrev pub Fits : RawTable K V → ℕ → ℕ → Type 0
  Fits t i d = (j : ℕ) → j < capacity t → next (capacity t) j ≡ i → d ≤ height t j

  abbrev pub full_count : List (Option (Entry K V)) → ℕ
  full_count [] = 0
  full_count (none ∷ bs) = full_count bs
  full_count (some e ∷ bs) = suc (full_count bs)

  pub full_count-le : (bs : List (Option (Entry K V))) → full_count bs ≤ length bs
  full_count-le [] = omega arith
  full_count-le (none ∷ bs) = omega (arith, full_count-le bs)
  full_count-le (some e ∷ bs) = omega (arith, full_count-le bs)

  pub full_count-some :
      (bs : List (Option (Entry K V))) (i : ℕ) (e : Entry K V)
      → get_or bs i none ≡ some e
      → 0 < full_count bs
  full_count-some [] i e h = absurd (cc h)
  full_count-some (none ∷ bs) zero e h = absurd (cc h)
  full_count-some (none ∷ bs) (suc i) e h = full_count-some bs i e h
  full_count-some (some e' ∷ bs) i e h = omega arith

  abbrev pub Hole : List (Option (Entry K V)) → Type 0
  Hole bs = (p : ℕ) × (p < length bs) × (get_or bs p none ≡ none)

  pub spare-Hole : (bs : List (Option (Entry K V))) → full_count bs < length bs → Hole bs
  spare-Hole [] h = absurd (omega arith)
  spare-Hole (none ∷ bs) h = (0, omega arith, refl)
  spare-Hole (some e ∷ bs) h =
      let (p, lt, empty) = spare-Hole bs (omega arith) in (suc p, omega arith, empty)

  -- There is an empty bucket, or none at all.
  abbrev pub HasRoom : RawTable K V → Type 0
  HasRoom t = (t.size < capacity t) ⊎ (capacity t ≡ 0)

  -- What a write changes in the count.
  abbrev pub fullness : Option (Entry K V) → ℕ
  fullness none = 0
  fullness (some e) = 1

  pub full_count-set :
      (bs : List (Option (Entry K V))) (i : ℕ) (o : Option (Entry K V))
      → i < length bs
      → full_count (set bs i o) + fullness (get_or bs i none) ≡ full_count bs + fullness o
  full_count-set [] i o h = absurd (omega arith)
  full_count-set (none ∷ bs) zero none h = omega arith
  full_count-set (none ∷ bs) zero (some e) h = omega arith
  full_count-set (some e ∷ bs) zero none h = omega arith
  full_count-set (some e ∷ bs) zero (some e') h = omega arith
  full_count-set (none ∷ bs) (suc i) o h = omega (arith, full_count-set bs i o (omega arith))
  full_count-set (some e ∷ bs) (suc i) o h = omega (arith, full_count-set bs i o (omega arith))

  abbrev pub Has : RawTable K V → Entry K V → Type 0
  Has t e = (i : ℕ) × (peek t i ≡ some e)

  -- The table holds `v` for the key `k`.
  abbrev pub Holds : RawTable K V → K → V → Type 0
  Holds t k v = (e : Entry K V) × Has t e × (e.key ≡ k) × (e.val ≡ v)

  abbrev pub IsAbsent : RawTable K V → K → Type 0
  IsAbsent t k = (i : ℕ) (e : Entry K V) → peek t i ≡ some e → e.key ≢ k

  module _ (keys : Keys K) where
    -- Every element is reached from its ideal bucket (`gentle`), stands under the hash of its key,
    -- and has a key of its own.
    pub record IsTable (t : RawTable K V) : Type 0 where
      pub gentle : IsGentle (capacity t) (height t)
      pub counted : t.size ≡ full_count t.buckets
      pub hashed : (i : ℕ) (e : Entry K V) → peek t i ≡ some e → e.hash ≡ make_hash keys e.key
      pub unique :
          (i j : ℕ) (e e' : Entry K V)
          → peek t i ≡ some e
          → peek t j ≡ some e'
          → e.key ≡ e'.key
          → i ≡ j

module _ {K : Type 0} (V : Type 0) (keys : Keys K) where
  abbrev blank : ℕ → RawTable K V
  blank c = new c

  pub new-empty : (c i : ℕ) → peek (blank c) i ≡ none
  unfolding new
  new-empty zero i = refl
  new-empty (suc c) zero = refl
  new-empty (suc c) (suc i) = new-empty c i

  new-count : (c : ℕ) → full_count (blank c).buckets ≡ 0
  unfolding new
  new-count zero = refl
  new-count (suc c) = new-count c

  new-height : (c i : ℕ) → height (blank c) i ≡ 0
  new-height c i = rw (new-empty c i) refl

  pub new-Holds : (c : ℕ) (x : K) (u : V) → ¬ Holds (blank c) x u
  new-Holds c x u (e, (i, at), key, val) = cc (at, new-empty c i)

  pub new-capacity : (c : ℕ) → capacity (blank c) ≡ c
  unfolding new
  new-capacity c = length-replicate c none

  pub new-size : (c : ℕ) → (blank c).size ≡ 0
  unfolding new
  new-size c = refl

  pub new-IsTable : (c : ℕ) → IsTable keys (blank c)
  unfolding new
  new-IsTable c = record {
    gentle = λ i hi. omega (arith, new-height c (next (capacity (blank c)) i));
    counted = sym (new-count c);
    hashed = λ i e h. absurd (cc (h, new-empty c i));
    unique = λ i j e e' h h' same. absurd (cc (h, new-empty c i));
  }
