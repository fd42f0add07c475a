-- ===== src/Hash/Map/Lookup.antt =====
-- collections/hash/map.rs: `get` gives what the table holds for a key.
use mathlib.Core.Option.{some-injective}
use rust_libstd.Prelude.{
  ℕ, ◌≤◌, ◌≡◌, ◌↔◌, refl, sym, ◌∙◌, ap, Option, none, some, get_or-some, arith,
}
use rust_libstd.Hash.Table.{Keys, Entry, RawTable, capacity, peek}
use rust_libstd.Hash.Table.State.{KeyLaws, eq-Matches, Holds, IsAbsent, HasRoom, IsTable}
use rust_libstd.Hash.Table.Write.{peek-same}
use rust_libstd.Hash.Map.{InternalEntry, occupied, neq_elem, no_elem, table_is_empty}
use rust_libstd.Hash.Map.Search.{Found, search_hashed-Found}
use rust_libstd.Hash.Map.Calls.{into_occupied_bucket, val_at, get}

module _ {K V : Type 0} (keys : Keys K) (t : RawTable K V) (k : K) (inv : IsTable keys t) where
  -- The element that a bucket with the key has is the one of the key.
  pub Holds-here :
      (i : ℕ) (e : Entry K V)
      → peek t i ≡ some e
      → e.key ≡ k
      → (v : V) → (some e.val ≡ some v) ↔ Holds t k v
  Holds-here i e here same v = (
    λ it. (e, (i, here), same, some-injective e.val v it),
    λ (e', (j, there), same', val).
        let one : i ≡ j = inv.unique i j e e' here there (same ∙ sym same') in
        let both : e ≡ e' = peek-same t j e e' (ap (peek t) (sym one) ∙ here) there in
        ap (λ x. some x.val) both ∙ ap some val,
  )

  pub IsAbsent-Holds : IsAbsent t k → (v : V) → (none ≡ some v) ↔ Holds t k v
  IsAbsent-Holds absent v =
      (λ no. absurd (cc no), λ (e, (j, there), same, val). absurd (absent j e there same))

  pub Found-Holds :
      (r : InternalEntry)
      → Found keys t k r
      → (v : V) → (val_at t (into_occupied_bucket r) ≡ some v) ↔ Holds t k v
  Found-Holds (occupied i) (e, here, same) v = rw here (Holds-here i e here same v)
  Found-Holds (neq_elem i disp) (e, d, here, eq, far, lt, fits, absent) v = IsAbsent-Holds absent v
  Found-Holds (no_elem i d) (hi, empty, far, fits, absent) v = IsAbsent-Holds absent v
  Found-Holds table_is_empty nothing v =
      IsAbsent-Holds (λ i e here. absurd (omega (arith, get_or-some t.buckets i e here, nothing))) v

  pub get-Holds :
      (fuel : ℕ)
      → KeyLaws keys
      → HasRoom t
      → capacity t ≤ fuel
      → (o : Option V) × (get fuel keys t k ≡ some o) × ((v : V) → (o ≡ some v) ↔ Holds t k v)
  unfolding get
  get-Holds fuel laws spare enough =
      let (r, runs, found) =
        search_hashed-Found keys t k (keys.eq k) fuel (eq-Matches keys laws k) inv spare enough in
      rw runs (val_at t (into_occupied_bucket r), refl, Found-Holds r found)
