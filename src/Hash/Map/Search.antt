-- ===== src/Hash/Map/Search.antt =====
-- collections/hash/map.rs: `search_hashed` finds a key where the table has it, and otherwise the
-- bucket at which the key belongs.
use native.Mathlib.Nat.{mod-lt}
use mathlib.Core.Option.{some-injective}
use rust_libstd.Prelude.{
  ℕ, zero, suc, ◌+◌, ◌%◌, ◌≤◌, ◌<◌, ◌≡◌, ◌≢◌, ◌↔◌, refl, sym, ◌∙◌, ap, Bool, true, false, ◌&&◌, ltb,
  ◌==◌, Option, none, some, get_or-some, arith, Bool-cases, Option-cases, inl, inr,
}
use rust_libstd.Hash.Table.{
  Keys, make_hash, Entry, RawTable, next, distance, displacement, capacity, peek,
}
use rust_libstd.Hash.Table.Walk.{
  next-lt, distance-lt, distance-next, distance-next_to, distance_self, distance-inj, next-inj,
  height-le-distance, climb,
}
use rust_libstd.Hash.Table.State.{height, IsTable, IsAbsent, spare-Hole, HasRoom, Fits}
use rust_libstd.Hash.Map.{
  InternalEntry, occupied, neq_elem, no_elem, table_is_empty, search_loop, search_hashed,
}

module _ {K V : Type 0} (keys : Keys K) (t : RawTable K V) (k : K) where
  -- What the search found, for the key `k`.
  abbrev pub Found : InternalEntry → Type 0
  Found (occupied i) = (e : Entry K V) × (peek t i ≡ some e) × (e.key ≡ k)
  Found (neq_elem i disp) =
      (e : Entry K V) × (d : ℕ) × (peek t i ≡ some e)
      × (disp ≡ displacement (capacity t) i e.hash)
      × (d ≡ displacement (capacity t) i (make_hash keys k))
      × (disp < d)
      × Fits t i d
      × IsAbsent t k
  Found (no_elem i d) =
      (i < capacity t)
      × (peek t i ≡ none)
      × (d ≡ displacement (capacity t) i (make_hash keys k))
      × Fits t i d
      × IsAbsent t k
  Found table_is_empty = capacity t ≡ 0

  abbrev pub Looked : Option InternalEntry → Type 0
  Looked o = (r : InternalEntry) × (o ≡ some r) × Found r

  -- The test that the caller gives for the key.
  abbrev pub Matches : (K → Bool) → Type 0
  Matches is_match = (x : K) → (is_match x ≡ true) ↔ (x ≡ k)

  module _ (inv : IsTable keys t) (p : ℕ) (hp : p < capacity t) (empty : peek t p ≡ none) where
    abbrev c : ℕ
    c = capacity t

    abbrev h : ℕ
    h = make_hash keys k

    abbrev s : ℕ
    s = h % c

    s-lt : s < c
    s-lt = mod-lt h (omega arith)

    ground_level : height t p ≡ 0
    ground_level = rw empty refl

    -- The search stands at `i`, with `d` buckets behind it that do not hold the key.
    record Probing (i d : ℕ) : Type 0 where
      at : i < c
      far : d ≡ distance c s i
      fits : Fits t i d
      passed : (j : ℕ) (e : Entry K V) → distance c s j < d → peek t j ≡ some e → e.key ≢ k

    -- Where the search stops short, the key is nowhere.
    stops-IsAbsent : (i d : ℕ) → Probing i d → height t i ≤ d → IsAbsent t k
    stops-IsAbsent i d pr low j e here same =
        let hj = get_or-some t.buckets j e here in
        let hash : e.hash ≡ h = inv.hashed j e here ∙ ap (make_hash keys) same in
        let tall : height t j ≡ suc (distance c s j) = rw (here, hash) refl in
        elim (Bool-cases (ltb (distance c s j) d)) [
          | inl behind ↦ pr.passed j e (ground arith) here same
          | inr ahead ↦
              let up =
                climb c (height t) inv.gentle s i j s-lt pr.at hj (ground (arith, pr.far)) tall in
              omega (arith, up, pr.far, low)
        ]

    passed-next :
        (i d : ℕ) (e : Entry K V)
        → Probing i d
        → peek t i ≡ some e
        → e.key ≢ k
        → (j : ℕ) (e' : Entry K V) → distance c s j < d + 1
        → peek t j ≡ some e'
        → e'.key ≢ k
    passed-next i d e pr here other j e' near here' same =
        elim (Bool-cases (ltb (distance c s j) d)) [
          | inl behind ↦ pr.passed j e' (ground arith) here' same
          | inr ahead ↦
              let hj = get_or-some t.buckets j e' here' in
              let it = distance-inj c s i j s-lt pr.at hj (ground (arith, pr.far)) in
              let both : e ≡ e' = some-injective e e' (sym here ∙ ap (peek t) it ∙ here') in
              other (ap (λ x. x.key) both ∙ same)
        ]

    goes_on :
        (i d : ℕ) (e : Entry K V)
        → Probing i d
        → peek t i ≡ some e
        → d ≤ displacement c i e.hash
        → e.key ≢ k
        → Probing (next c i) (d + 1)
    goes_on i d e pr here tall other =
        let above : height t i ≡ suc (displacement c i e.hash) = rw here refl in
        let low = height-le-distance c (height t) inv.gentle p i hp pr.at ground_level in
        let far = distance-lt c p i hp pr.at in
        record {
          at = next-lt c i pr.at;
          far = omega (
            arith,
            pr.far,
            distance-next c s i s-lt pr.at (omega (arith, above, low, far, pr.far)),
          );
          fits = λ j hj e'.
              let same : j ≡ i = next-inj c j i hj pr.at e' in rw same (omega (arith, above));
          passed = passed-next i d e pr here other;
        }

    Probing-start : Probing s 0
    Probing-start = record {
      at = s-lt;
      far = sym (distance_self c s);
      fits = λ j hj e. omega arith;
      passed = λ j e lt here. absurd (omega arith);
    }

    module _ (is_match : K → Bool) (matches : Matches is_match) where
      is_match-same :
          (j : ℕ) (e : Entry K V)
          → peek t j ≡ some e
          → e.key ≡ k
          → (h == e.hash && is_match e.key) ≡ true
      is_match-same j e here same =
          let hash : e.hash ≡ h = inv.hashed j e here ∙ ap (make_hash keys) same in
          let eq = (matches e.key).1 same in rw (hash, eq) (ground arith)

      is_match-key : (e : Entry K V) → (h == e.hash && is_match e.key) ≡ true → e.key ≡ k
      is_match-key e both = (matches e.key).0 (ground arith)

      search_loop-Found :
          (fuel i d : ℕ)
          → Probing i d
          → distance c i p < fuel
          → Looked (search_loop t h is_match fuel i d)
      unfolding search_loop
      search_loop-Found zero i d pr lt = absurd (omega arith)
      search_loop-Found (suc fuel) i d pr lt = elim (Option-cases (peek t i)) [
        | inl gone ↦
            let low : height t i ≡ 0 = rw gone refl in
            let absent = stops-IsAbsent i d pr (omega (arith, low)) in
            rw gone (no_elem i d, refl, (pr.at, gone, pr.far, pr.fits, absent))
        | inr (e, here) ↦
            let tall : height t i ≡ suc (displacement c i e.hash) = rw here refl in
            elim (Bool-cases (ltb (displacement c i e.hash) d)) [
              | inl short ↦
                  let absent = stops-IsAbsent i d pr (ground (arith, tall, short)) in
                  rw (here, short)
                    (
                      neq_elem i (displacement c i e.hash),
                      refl,
                      (e, d, here, refl, pr.far, ground arith, pr.fits, absent),
                    )
              | inr long ↦ elim (Bool-cases (h == e.hash && is_match e.key)) [
                | inl both ↦
                    rw (here, long, both) (occupied i, refl, (e, here, is_match-key e both))
                | inr other ↦
                    let differs : e.key ≢ k = λ same. cc (is_match-same i e here same, other) in
                    let on = goes_on i d e pr here (ground arith) differs in
                    let nearer =
                      distance-next_to c i p pr.at hp (λ it. cc (ap (peek t) it, here, empty)) in
                    rw (here, long, other)
                      (search_loop-Found fuel (next c i) (d + 1) on (omega (arith, nearer)))
              ]
            ]
      ]

  -- For a test that accepts just the key, a table in order with an empty bucket or no bucket at
  -- all, and fuel of at least the capacity: search_hashed returns. A bucket that it gives as
  -- occupied has the key; where it gives a vacant one, the key is nowhere in the table, its
  -- displacement there is not above the height of the bucket before, and the element there, if any,
  -- has a smaller displacement; it says that the table is empty only where that has no bucket.
  pub search_hashed-Found :
      (is_match : K → Bool) (fuel : ℕ)
      → Matches is_match
      → IsTable keys t
      → HasRoom t
      → capacity t ≤ fuel
      → (r : InternalEntry) × (search_hashed fuel t (make_hash keys k) is_match ≡ some r) × Found r
  unfolding search_hashed
  search_hashed-Found is_match fuel matches inv (inl spare) enough =
      let (p, hp, empty) = spare-Hole t.buckets (omega (arith, inv.counted)) in
      let not_zero : (capacity t == 0) ≡ false = ground arith in
      let far = distance-lt (capacity t) (s inv p hp empty) p (s-lt inv p hp empty) hp in
      rw not_zero (
        search_loop-Found inv p hp empty is_match matches fuel (s inv p hp empty) 0
          (Probing-start inv p hp empty) (omega (arith, far)))
  search_hashed-Found is_match fuel matches inv (inr nothing) enough =
      let is_zero : (capacity t == 0) ≡ true = ground arith in
      rw is_zero (table_is_empty, refl, nothing)
