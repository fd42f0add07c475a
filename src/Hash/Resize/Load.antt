-- ===== src/Hash/Resize/Load.antt =====
-- collections/hash/map.rs: the loop of `shrink_to_fit`, which puts elements into a table one by one.
use mathlib.Core.Path.{subst}
use rust_libstd.Prelude.{
  ℕ, suc, ◌+◌, ◌≤◌, ◌<◌, ◌≡◌, ◌≢◌, ◌⊎◌, ◌↔◌, refl, sym, ◌∙◌, ap, Option, none, some, List, [], ◌∷◌,
  length, get_or, ok, arith, Option-cases, inl, inr,
}
use rust_libstd.Hash.Table
use rust_libstd.Hash.Table.{Keys, make_hash, Entry, RawTable, capacity, peek}
use rust_libstd.Hash.Table.State.{
  KeyLaws, Holds, IsTable, new-IsTable, new-Holds, new-size, new-capacity,
}
use rust_libstd.Hash.Map.Insert.{added, Inserted, insert_hashed_nocheck-Inserted}
use rust_libstd.Hash.Map.Calls.{insert_hashed_nocheck}
use rust_libstd.Hash.Resize.{insert_all}
use rust_libstd.Hash.Resize.Listing.{
  elements, Listed, Keyed, Distinct, none-left, length-elements, Distinct-elements,
}

module _ {K V : Type 0} (keys : Keys K) (laws : KeyLaws keys) (fuel : ℕ) where
  abbrev Hashed : List (Entry K V) → Type 0
  Hashed [] = Unit {0}
  Hashed (e ∷ es) = (e.hash ≡ make_hash keys e.key) × Hashed es

  -- The elements can go into the table one by one.
  record Loading (es : List (Entry K V)) (t : RawTable K V) : Type 0 where
    inv : IsTable keys t
    room : t.size + length es < capacity t
    enough : capacity t ≤ fuel
    distinct : Distinct es
    hashed : Hashed es
    fresh : (x : K) (u : V) → Keyed es x → ¬ Holds t x u

  pub record Loaded (es : List (Entry K V)) (t t' : RawTable K V) : Type 0 where
    pub inv : IsTable keys t'
    pub capacity_same : capacity t' ≡ capacity t
    pub counted : t'.size ≡ t.size + length es
    pub holds : (x : K) (u : V) → Holds t' x u ↔ (Listed es x u ⊎ Holds t x u)

  module _ (e : Entry K V) (es : List (Entry K V)) (t : RawTable K V) (old : Option V)
      (t1 : RawTable K V) (on : Loading (e ∷ es) t) (ins : Inserted keys t e.key e.val old t1) where
    was_new : old ≡ none
    was_new = elim (Option-cases old) [
      | inl it ↦ it
      | inr (u, it) ↦ absurd (on.fresh e.key u (inl refl) ((ins.replaced u).0 it))
    ]

    one_more : t1.size ≡ t.size + 1
    one_more = omega (arith, ins.counted, ap added was_new)

    step-Loading : Loading es t1
    step-Loading = record {
      inv = ins.inv;
      room = omega (arith, on.room, one_more, ins.capacity_same);
      enough = omega (arith, on.enough, ins.capacity_same);
      distinct = on.distinct.1;
      hashed = on.hashed.1;
      fresh = λ x u keyed held. elim ((ins.holds x u).0 held) [
        | inl (key, val) ↦ on.distinct.0 (subst (Keyed es) key keyed)
        | inr (ne, was) ↦ on.fresh x u (inr keyed) was
      ];
    }

    step-Loaded : (t' : RawTable K V) → Loaded es t1 t' → Loaded (e ∷ es) t t'
    step-Loaded t' done = record {
      inv = done.inv;
      capacity_same = done.capacity_same ∙ ins.capacity_same;
      counted = omega (arith, done.counted, one_more);
      holds = λ x u. (
        λ h. elim ((done.holds x u).0 h) [
          | inl listed ↦ inl (inr listed)
          | inr held ↦ elim ((ins.holds x u).0 held) [
            | inl (key, val) ↦ inl (inl (sym key, sym val))
            | inr (ne, was) ↦ inr was
          ]
        ],
        λ or. elim or [
          | inl (inl (key, val)) ↦
              (done.holds x u).1 (inr ((ins.holds x u).1 (inl (sym key, sym val))))
          | inl (inr listed) ↦ (done.holds x u).1 (inl listed)
          | inr was ↦
              let ne : x ≢ e.key = λ same. on.fresh x u (inl (sym same)) was in
              (done.holds x u).1 (inr ((ins.holds x u).1 (inr (ne, was))))
        ],
      );
    }

  insert_all-Loaded :
      (es : List (Entry K V)) (t : RawTable K V)
      → Loading es t
      → (t' : RawTable K V) × (insert_all fuel keys es t ≡ some (ok t')) × Loaded es t t'
  unfolding insert_all
  insert_all-Loaded [] t on = (
    t,
    refl,
    record {
      inv = on.inv;
      capacity_same = refl;
      counted = omega arith;
      holds = λ x u. (λ h. inr h, λ or. elim or [ inl no_one ↦ absurd no_one | inr h ↦ h ]);
    },
  )
  insert_all-Loaded (e ∷ es) t on =
      let (old, t1, runs, ins) =
        insert_hashed_nocheck-Inserted keys fuel t e.key e.val laws on.inv (omega (arith, on.room))
          on.enough in
      let (t', goes, done) = insert_all-Loaded es t1 (step-Loading e es t old t1 on ins) in
      let hash = ap (λ h. insert_hashed_nocheck fuel keys t h e.key e.val) on.hashed.0 in
      rw (hash, runs) (t', goes, step-Loaded e es t old t1 on ins t' done)

  module _ (t : RawTable K V) (inv : IsTable keys t) (r : ℕ) (enough : r ≤ fuel) where
    Hashed-elements :
        (bs : List (Option (Entry K V)))
        → ((i : ℕ) (e : Entry K V) → get_or bs i none ≡ some e → e.hash ≡ make_hash keys e.key)
        → Hashed (elements bs)
    Hashed-elements [] h = tt
    Hashed-elements (none ∷ bs) h = Hashed-elements bs (λ i. h (suc i))
    Hashed-elements (some e ∷ bs) h = (h 0 e refl, Hashed-elements bs (λ i. h (suc i)))

    -- A new table that takes the elements.
    pub filled :
        (t.size ≡ 0) ⊎ (t.size < r)
        → (t' : RawTable K V) × (insert_all fuel keys (elements t.buckets) (Table.new r)
            ≡ some (ok t'))
          × Loaded (elements t.buckets) (Table.new r) t'
    unfolding insert_all
    filled (inl empty) =
        let nothing = none-left t.buckets (sym inv.counted ∙ empty) in
        rw nothing (
          Table.new r,
          refl,
          record {
            inv = new-IsTable V keys r;
            capacity_same = refl;
            counted = omega arith;
            holds = λ x u. (λ h. inr h, λ or. elim or [ inl no_one ↦ absurd no_one | inr h ↦ h ]);
          },
        )
    filled (inr less) = insert_all-Loaded (elements t.buckets) (Table.new r) (record {
      inv = new-IsTable V keys r;
      room = omega (
        arith,
        new-size V keys r,
        new-capacity V keys r,
        length-elements t.buckets,
        inv.counted,
        less,
      );
      enough = omega (arith, enough, new-capacity V keys r);
      distinct = Distinct-elements t.buckets inv.unique;
      hashed = Hashed-elements t.buckets inv.hashed;
      fresh = λ x u keyed held. new-Holds V keys r x u held;
    })
