-- ===== src/Hash/Map/Insert.antt =====
-- collections/hash/map.rs: `insert_hashed_nocheck` keeps the table in order and sets one key.
use mathlib.Core.Path.{subst}
use rust_libstd.Prelude.{
  ℕ, suc, ◌+◌, ◌≤◌, ◌<◌, ◌≡◌, ◌≢◌, ◌⊎◌, ◌↔◌, refl, sym, ◌∙◌, ap, Bool, true, leb, Option, none,
  some, ok, length-set, get_or-some, arith, Bool-cases, inl, inr,
}
use rust_libstd.Hash.Table.{
  Keys, make_hash, Entry, RawTable, displacement, capacity, peek, put, replace,
}
use rust_libstd.Hash.Table.State.{KeyLaws, height, Holds, IsAbsent, IsTable, spare-Hole}
use rust_libstd.Hash.Table.Write.{write-IsTable, write-cases, write-here, write-there, peek-same}
use rust_libstd.Hash.Map.{
  InternalEntry, occupied, neq_elem, no_elem, table_is_empty, displacement_threshold, robin_hood,
  tagged, insert_at,
}
use rust_libstd.Hash.Map.Search.{Found, search_hashed-Found}
use rust_libstd.Hash.Map.RobinHood.{Carrying, Stored, fills, robin_hood-Stored}
use rust_libstd.Hash.Map.Calls.{insert_hashed_nocheck}
use rust_libstd.Hash.Map.Lookup.{Holds-here, IsAbsent-Holds}

abbrev pub added {ℓ} : {A : Type ℓ} → Option A → ℕ
added none = 1
added (some a) = 0

module _ {K V : Type 0} (keys : Keys K) where
  -- The table `t'` is `t` with `v` for the key `k`, and `old` is what it had for it.
  pub record Inserted (t : RawTable K V) (k : K) (v : V) (old : Option V) (t' : RawTable K V)
      : Type 0 where
    pub inv : IsTable keys t'
    pub capacity_same : capacity t' ≡ capacity t
    pub counted : t'.size ≡ t.size + added old
    pub replaced : (u : V) → (old ≡ some u) ↔ Holds t k u
    pub holds : (x : K) (u : V) → Holds t' x u ↔ (((x ≡ k) × (u ≡ v)) ⊎ ((x ≢ k) × Holds t x u))

  retag-IsTable :
      (t : RawTable K V) (b : Bool) → IsTable keys t → IsTable keys (record t { tag = b })
  retag-IsTable t b inv = record {
    gentle = inv.gentle;
    counted = inv.counted;
    hashed = inv.hashed;
    unique = inv.unique;
  }

  tagged-tag : (d : ℕ) (t : RawTable K V) → (b : Bool) × (tagged d t ≡ record t { tag = b })
  tagged-tag d t = elim (Bool-cases (leb displacement_threshold d)) [
    | inl long ↦ (true, rw long refl)
    | inr short ↦ (t.tag, rw short refl)
  ]

  module _ (t : RawTable K V) (b : Bool) (inv : IsTable keys t) where
    Stored-Inserted :
        (e : Entry K V) (t' : RawTable K V)
        → IsAbsent t e.key
        → Stored keys (record t { tag = b }) e t'
        → Inserted t e.key e.val none t'
    Stored-Inserted e t' absent st = record {
      inv = st.inv;
      capacity_same = st.capacity_same;
      counted = st.counted;
      replaced = IsAbsent-Holds keys t e.key inv absent;
      holds = λ x u. (
        λ (e', has, key, val). elim ((st.has e').0 has) [
          | inl it ↦ inl (sym key ∙ ap (λ y. y.key) it, sym val ∙ ap (λ y. y.val) it)
          | inr (j, was) ↦ inr (λ same. absent j e' was (key ∙ same), (e', (j, was), key, val))
        ],
        λ or. elim or [
          | inl (key, val) ↦ (e, (st.has e).1 (inl refl), sym key, sym val)
          | inr (apart, (e', was, key, val)) ↦ (e', (st.has e').1 (inr was), key, val)
        ],
      );
    }

  module _ (t : RawTable K V) (inv : IsTable keys t) (i : ℕ) (e : Entry K V)
      (here : peek t i ≡ some e) (v : V) where
    hi : i < capacity t
    hi = get_or-some t.buckets i e here

    abbrev over : Entry K V
    over = record e { val = v }

    overwrite-IsTable : IsTable keys (replace i over t)
    overwrite-IsTable =
        let tall : height t i ≡ suc (displacement (capacity t) i e.hash) = rw here refl in
        write-IsTable t i hi over t.size keys inv
          (λ j hj nx. omega (arith, tall, inv.gentle j hj, ap (height t) nx)) (omega (arith, tall))
          (inv.hashed i e here) (λ j x apart h same. apart (inv.unique i j e x here h (sym same)))
          (rw here refl)

    replaced-to :
        (x : K) (u : V)
        → Holds (replace i over t) x u
        → ((x ≡ e.key) × (u ≡ v)) ⊎ ((x ≢ e.key) × Holds t x u)
    replaced-to x u (y, (j, h), key, val) = elim (write-cases t i hi over t.size j y h) [
      | inl (at, it) ↦ inl (sym key ∙ ap (λ z. z.key) it, sym val ∙ ap (λ z. z.val) it)
      | inr (apart, was) ↦ inr (
        λ same. apart (inv.unique i j e y here was (sym same ∙ sym key)),
        (y, (j, was), key, val),
      )
    ]

    replaced-from :
        (x : K) (u : V)
        → ((x ≡ e.key) × (u ≡ v)) ⊎ ((x ≢ e.key) × Holds t x u)
        → Holds (replace i over t) x u
    replaced-from x u (inl (key, val)) =
        (over, (i, write-here t i hi over t.size), sym key, sym val)
    replaced-from x u (inr (apart, (y, (j, was), key, val))) =
        let ne : i ≢ j = λ same.
          apart
            (sym key ∙ ap (λ z. z.key) (peek-same t j y e was (ap (peek t) (sym same) ∙ here))) in
        (y, (j, write-there t i hi over t.size j ne ∙ was), key, val)

    overwrite-Inserted : Inserted t e.key v (some e.val) (replace i over t)
    overwrite-Inserted = record {
      inv = overwrite-IsTable;
      capacity_same = length-set t.buckets i (some over);
      counted = omega arith;
      replaced = Holds-here keys t e.key inv i e here refl;
      holds = λ x u. (replaced-to x u, replaced-from x u);
    }

  -- The search's answer for `e`, in a table with an empty bucket `p`.
  module _ (t : RawTable K V) (inv : IsTable keys t) (p : ℕ) (hp : p < capacity t)
      (empty : peek t p ≡ none) where
    insert_at-Inserted :
        (fuel : ℕ) (e : Entry K V)
        → e.hash ≡ make_hash keys e.key
        → capacity t ≤ fuel
        → (r : InternalEntry) → Found keys t e.key r
        → (old : Option V) × (t' : RawTable K V) × (insert_at fuel t e r ≡ some (ok (old, t')))
          × Inserted t e.key e.val old t'
    insert_at-Inserted fuel e hash enough (occupied i) (e', here, same) =
        let t' : RawTable K V = replace i (record e' { val = e.val }) t in
        rw here (
          some e'.val,
          t',
          refl,
          subst (λ k. Inserted t k e.val (some e'.val) t') same
              (overwrite-Inserted t inv i e' here e.val),
        )
    insert_at-Inserted fuel e hash enough (neq_elem i disp)
          (old, d, here, eq, far, lt, fits, absent) =
        let (b, it) = tagged-tag disp t in
        let on : Carrying keys p (record t { tag = b }) i d e = record {
          inv = retag-IsTable t b inv;
          at = get_or-some t.buckets i old here;
          far = far ∙ ap (displacement (capacity t) i) (sym hash);
          fits = fits;
          hash = hash;
          fresh = absent;
          end = hp;
          empty = empty;
        } in
        let (t', runs, st) =
          robin_hood-Stored keys p fuel (record t { tag = b }) i d e old on here
            (omega (arith, lt, eq)) enough in
        let runs' = ap (λ x. robin_hood fuel (record t { tag = b }) i x e) eq ∙ runs in
        rw (it, runs') (none, t', refl, Stored-Inserted t b inv e t' absent st)
    insert_at-Inserted fuel e hash enough (no_elem i d) (at_i, gone, far, fits, absent) =
        let (b, it) = tagged-tag d t in
        let on : Carrying keys p (record t { tag = b }) i d e = record {
          inv = retag-IsTable t b inv;
          at = at_i;
          far = far ∙ ap (displacement (capacity t) i) (sym hash);
          fits = fits;
          hash = hash;
          fresh = absent;
          end = hp;
          empty = empty;
        } in
        rw it (
          none,
          put i e (record t { tag = b }),
          refl,
          Stored-Inserted t b inv e (put i e (record t { tag = b })) absent
              (fills keys p (record t { tag = b }) i d e on gone),
        )
    insert_at-Inserted fuel e hash enough table_is_empty zero_c = absurd (omega (arith, zero_c))

  -- Where keys are compared by equality, a table in order has an empty bucket, and the fuel is at
  -- least the capacity: insert_hashed_nocheck returns, without a panic, a table in order of the
  -- same capacity that holds the value for the key and for every other key what the first one
  -- holds, with one element more just where the key is new, and it gives the value that the key
  -- had.
  pub insert_hashed_nocheck-Inserted :
      (fuel : ℕ) (t : RawTable K V) (k : K) (v : V)
      → KeyLaws keys
      → IsTable keys t
      → t.size < capacity t
      → capacity t ≤ fuel
      → (old : Option V) × (t' : RawTable K V) × (insert_hashed_nocheck fuel keys t
            (make_hash keys k)
            k
            v
          ≡ some (ok (old, t')))
        × Inserted t k v old t'
  unfolding insert_hashed_nocheck
  insert_hashed_nocheck-Inserted fuel t k v laws inv spare enough =
      let (p, hp, empty) = spare-Hole t.buckets (omega (arith, inv.counted)) in
      let (r, runs, found) =
        search_hashed-Found keys t k (λ x. keys.eq x k) fuel (λ x. laws.eq_iff x k) inv (inl spare)
          enough in
      rw runs (
        insert_at-Inserted t inv p hp empty fuel
          (record { hash = make_hash keys k; key = k; val = v }) refl enough r found)
