-- ===== src/Hash/Resize/Shrink.antt =====
-- collections/hash/map.rs: `shrink_to_fit` keeps what the map holds.
use rust_libstd.Prelude.{
  ℕ, ◌^◌, ◌≤◌, ◌<◌, ◌≡◌, ◌⊎◌, ◌↔◌, refl, ◌∙◌, ◌==◌, some, ok, arith, Bool-cases, inl, inr,
}
use rust_libstd.Hash.Table
use rust_libstd.Hash.Table.{Keys, make_hash, Entry, RawTable, capacity, peek}
use rust_libstd.Hash.Table.State.{
  KeyLaws, Holds, HasRoom, IsTable, new-Holds, new-size, new-capacity,
}
use rust_libstd.Hash.Resize.{raw_capacity, shrink_to_fit}
use rust_libstd.Hash.Resize.Load.{Loaded, filled}
use rust_libstd.Hash.Resize.Policy.{raw_capacity-less}
use rust_libstd.Hash.Resize.Listing.{elements, into_iter-elements, length-elements, Listed-elements}

module _ {K V : Type 0} (keys : Keys K) (laws : KeyLaws keys) (fuel : ℕ) where
  -- The map keeps what it holds.
  pub record Shrunk (t t' : RawTable K V) (r : ℕ) : Type 0 where
    pub inv : IsTable keys t'
    pub capacity_is : capacity t' ≡ r
    pub room : HasRoom t'
    pub size_same : t'.size ≡ t.size
    pub holds : (x : K) (u : V) → Holds t' x u ↔ Holds t x u

  kept-Shrunk :
      (t : RawTable K V) (r : ℕ)
      → IsTable keys t
      → (t.size ≡ 0) ⊎ (t.size < r)
      → (t.size ≡ 0 → r ≡ 0)
      → capacity t ≡ r
      → Shrunk t t r
  kept-Shrunk t r inv less none_for_none cap = record {
    inv = inv;
    capacity_is = cap;
    room = elim less [
      | inl empty ↦ inr (cap ∙ none_for_none empty)
      | inr lt ↦ inl (omega (arith, cap, lt))
    ];
    size_same = refl;
    holds = λ x u. (λ h. h, λ h. h);
  }

  loaded-Shrunk :
      (t t' : RawTable K V) (r : ℕ)
      → IsTable keys t
      → (t.size ≡ 0) ⊎ (t.size < r)
      → (t.size ≡ 0 → r ≡ 0)
      → Loaded keys laws fuel (elements t.buckets) (Table.new r) t'
      → Shrunk t t' r
  loaded-Shrunk t t' r inv less none_for_none done =
      let size : t'.size ≡ t.size =
        omega (arith, done.counted, new-size V keys r, length-elements t.buckets, inv.counted) in
      let cap = done.capacity_same ∙ new-capacity V keys r in
      record {
        inv = done.inv;
        capacity_is = cap;
        size_same = size;
        room = elim less [
          | inl empty ↦ inr (cap ∙ none_for_none empty)
          | inr lt ↦ inl (omega (arith, size, cap, lt))
        ];
        holds = λ x u. (
          λ h. elim ((done.holds x u).0 h) [
            | inl listed ↦ (Listed-elements t.buckets x u).0 listed
            | inr held ↦ absurd (new-Holds V keys r x u held)
          ],
          λ h. (done.holds x u).1 (inl ((Listed-elements t.buckets x u).1 h)),
        );
      }

  -- Where keys are compared by equality, a table is in order with at most 2^58 elements, and the
  -- fuel is at least the raw capacity that the policy gives for them: shrink_to_fit returns,
  -- without a panic, a table in order of that raw capacity, with an empty bucket or none at all,
  -- that has as many elements and holds the same values for the same keys.
  pub shrink_to_fit-Shrunk :
      (t : RawTable K V) (r : ℕ)
      → IsTable keys t
      → t.size ≤ 2 ^ 58
      → raw_capacity t.size ≡ ok r
      → r ≤ fuel
      → (t' : RawTable K V) × (shrink_to_fit fuel keys t ≡ some (ok t')) × Shrunk t t' r
  unfolding shrink_to_fit
  shrink_to_fit-Shrunk t r inv small chosen enough =
      let (less, none_for_none) = raw_capacity-less t.size r small chosen in
      elim (Bool-cases (capacity t == r)) [
        | inl fits ↦
            rw (chosen, fits) (t, refl, kept-Shrunk t r inv less none_for_none (ground arith))
        | inr other ↦
            let (t', runs, done) = filled keys laws fuel t inv r enough less in
            let list = into_iter-elements t.size t.buckets inv.counted in
            rw (chosen, other, list) (t', runs, loaded-Shrunk t t' r inv less none_for_none done)
      ]
