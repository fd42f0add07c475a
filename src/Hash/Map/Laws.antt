-- ===== src/Hash/Map/Laws.antt =====
-- collections/hash/map.rs: what `get` gives after `insert_hashed_nocheck` and after `remove`, and
-- when `insert_hashed_nocheck` panics.
use mathlib.Core.Option.{some-injective}
use rust_libstd.Prelude.{
  ℕ, ◌+◌, ◌≤◌, ◌<◌, ◌≡◌, ◌≢◌, ◌↔◌, refl, sym, ◌∙◌, ap, true, ◌==◌, if◌then◌else◌, Option, none,
  some, ok, panic, arith, Bool-cases, inl, inr,
}
use rust_libstd.Hash.Table.{Keys, make_hash, RawTable, capacity}
use rust_libstd.Hash.Table.State.{KeyLaws, eq-Matches, Holds, HasRoom, IsTable}
use rust_libstd.Hash.Map.{search_hashed}
use rust_libstd.Hash.Map.Calls.{get, insert_hashed_nocheck, remove}
use rust_libstd.Hash.Map.Lookup.{get-Holds}
use rust_libstd.Hash.Map.Insert.{added, Inserted, insert_hashed_nocheck-Inserted}
use rust_libstd.Hash.Map.Remove.{Removed, remove-Removed}

-- Two options that are `some` of the same are the same.
same_some {ℓ} : {A : Type ℓ} (o o' : Option A) → ((a : A) → (o ≡ some a) ↔ (o' ≡ some a)) → o ≡ o'
same_some none none h = refl
same_some none (some a) h = (h a).1 refl
same_some (some a) o' h = sym ((h a).0 refl)

added-le : {V : Type 0} (o : Option V) → added o ≤ 1
added-le none = omega arith
added-le (some v) = omega arith

module _ {K V : Type 0} (keys : Keys K) (laws : KeyLaws keys) (fuel : ℕ) where
  -- Two tables that hold the same for a key give the same.
  get_same :
      (t t' : RawTable K V) (x : K)
      → IsTable keys t
      → IsTable keys t'
      → HasRoom t
      → HasRoom t'
      → capacity t ≤ fuel
      → capacity t' ≤ fuel
      → ((u : V) → Holds t' x u ↔ Holds t x u)
      → get fuel keys t' x ≡ get fuel keys t x
  get_same t t' x inv inv' room room' enough enough' same =
      let (o, runs, of_t) = get-Holds keys t x inv fuel laws room enough in
      let (o', runs', of_t') = get-Holds keys t' x inv' fuel laws room' enough' in
      let both : o' ≡ o = same_some o' o (λ u. (
        λ h. (of_t u).1 ((same u).0 ((of_t' u).0 h)),
        λ h. (of_t' u).1 ((same u).1 ((of_t u).0 h)),
      )) in
      runs' ∙ ap some both ∙ sym runs

  get-held :
      (t : RawTable K V) (x : K) (o : Option V)
      → IsTable keys t
      → HasRoom t
      → capacity t ≤ fuel
      → ((u : V) → (o ≡ some u) ↔ Holds t x u)
      → get fuel keys t x ≡ some o
  get-held t x o inv room enough holds =
      let (o', runs, of_t) = get-Holds keys t x inv fuel laws room enough in
      runs
      ∙ ap some
          (same_some o' o (λ u. (λ h. (holds u).1 ((of_t u).0 h), λ h. (of_t u).1 ((holds u).0 h))))

  got-insert :
      (t t' : RawTable K V) (k : K) (v : V) (old : Option V)
      → Inserted keys t k v old t'
      → IsTable keys t
      → HasRoom t
      → HasRoom t'
      → capacity t ≤ fuel
      → capacity t' ≤ fuel
      → (x : K) → get fuel keys t' x ≡ (if keys.eq k x then some (some v) else get fuel keys t x)
  got-insert t t' k v old ins inv room room' enough enough' x = elim (Bool-cases (keys.eq k x)) [
    | inl hit ↦
        let same = (eq-Matches keys laws k x).0 hit in
        rw hit (
          get-held t' x (some v) ins.inv room' enough' (λ u. (
            λ e. (ins.holds x u).1 (inl (same, sym (some-injective v u e))),
            λ h. elim ((ins.holds x u).0 h) [
              | inl (key, val) ↦ ap some (sym val)
              | inr (ne, was) ↦ absurd (ne same)
            ],
          )))
    | inr miss ↦
        let ne : x ≢ k = λ it. cc (miss, (eq-Matches keys laws k x).1 it) in
        rw miss (
          get_same t t' x inv ins.inv room room' enough enough' (λ u. (
            λ h. elim ((ins.holds x u).0 h) [
              | inl (key, val) ↦ absurd (ne key)
              | inr (other, was) ↦ was
            ],
            λ h. (ins.holds x u).1 (inr (ne, h)),
          )))
  ]

  got-remove :
      (t t' : RawTable K V) (k : K) (old : Option V)
      → Removed keys t k old t'
      → IsTable keys t
      → HasRoom t
      → capacity t ≤ fuel
      → (x : K) → get fuel keys t' x ≡ (if keys.eq k x then some none else get fuel keys t x)
  got-remove t t' k old rem inv room enough x =
      let room' : HasRoom t' = elim room [
        | inl spare ↦ inl (omega (arith, spare, rem.counted, rem.capacity_same))
        | inr nothing ↦ inr (rem.capacity_same ∙ nothing)
      ] in
      let enough' : capacity t' ≤ fuel = omega (arith, enough, rem.capacity_same) in
      elim (Bool-cases (keys.eq k x)) [
        | inl hit ↦
            let same = (eq-Matches keys laws k x).0 hit in
            rw hit (
              get-held t' x none rem.inv room' enough'
                (λ u. (λ e. absurd (cc e), λ h. absurd (((rem.holds x u).0 h).0 same))))
        | inr miss ↦
            let ne : x ≢ k = λ it. cc (miss, (eq-Matches keys laws k x).1 it) in
            rw miss (
              get_same t t' x inv rem.inv room room' enough enough'
                (λ u. (λ h. ((rem.holds x u).0 h).1, λ h. (rem.holds x u).1 (ne, h))))
      ]

  -- Where keys are compared by an equivalence that is equality, the table is in order, one more
  -- element leaves an empty bucket, and the fuel is at least the capacity: insert_hashed_nocheck
  -- returns, gives what get gave for the key before, and after it get gives the new value for that
  -- key and what it gave before for every other one.
  pub get-insert :
      (t : RawTable K V) (k : K) (v : V)
      → IsTable keys t
      → t.size + 1 < capacity t
      → capacity t ≤ fuel
      → (old : Option V) × (t' : RawTable K V) × (insert_hashed_nocheck fuel keys t
            (make_hash keys k)
            k
            v
          ≡ some (ok (old, t')))
        × (get fuel keys t k ≡ some old)
        × ((x : K)
            → get fuel keys t' x ≡ (if keys.eq k x then some (some v) else get fuel keys t x))
  get-insert t k v inv spare enough =
      let (old, t', runs, ins) =
        insert_hashed_nocheck-Inserted keys fuel t k v laws inv (omega (arith, spare)) enough in
      let room' : HasRoom t' =
        inl (omega (arith, ins.counted, ins.capacity_same, added-le old, spare)) in
      let enough' : capacity t' ≤ fuel = omega (arith, enough, ins.capacity_same) in
      (
        old,
        t',
        runs,
        get-held t k old inv (inl (omega (arith, spare))) enough ins.replaced,
        λ x. got-insert t t' k v old ins inv (inl (omega (arith, spare))) room' enough enough' x,
      )

  -- Where keys are compared by equality, a table in order has an empty bucket or no bucket at all,
  -- and the fuel is at least the capacity: remove returns, gives what get gave for the key before,
  -- and after it get gives nothing for that key and what it gave before for every other one.
  pub get-remove :
      (t : RawTable K V) (k : K)
      → IsTable keys t
      → HasRoom t
      → capacity t ≤ fuel
      → (old : Option V) × (t' : RawTable K V) × (remove fuel keys t k ≡ some (old, t'))
        × (get fuel keys t k ≡ some old)
        × ((x : K) → get fuel keys t' x ≡ (if keys.eq k x then some none else get fuel keys t x))
  get-remove t k inv room enough =
      let (old, t', runs, rem) = remove-Removed keys fuel t k laws inv room enough in
      (
        old,
        t',
        runs,
        get-held t k old inv room enough rem.taken,
        λ x. got-remove t t' k old rem inv room enough x,
      )

  -- Where keys are compared by equality, a table in order has an empty bucket or no bucket at all,
  -- and the fuel is at least the capacity: insert_hashed_nocheck reaches its unreachable! just
  -- where the table has no bucket.
  pub insert_hashed_nocheck-panic :
      (t : RawTable K V) (k : K) (v : V)
      → IsTable keys t
      → HasRoom t
      → capacity t ≤ fuel
      → (insert_hashed_nocheck fuel keys t (make_hash keys k) k v ≡ some panic) ↔ (capacity t ≡ 0)
  unfolding insert_hashed_nocheck search_hashed
  insert_hashed_nocheck-panic t k v inv (inl spare) enough =
      let (old, t', runs, ins) =
        insert_hashed_nocheck-Inserted keys fuel t k v laws inv spare enough in
      (λ e. absurd (cc (e, runs)), λ nothing. absurd (omega (arith, spare, nothing)))
  insert_hashed_nocheck-panic t k v inv (inr nothing) enough =
      let is_zero : (capacity t == 0) ≡ true = ground arith in
      (λ e. nothing, λ zero_c. rw is_zero refl)
