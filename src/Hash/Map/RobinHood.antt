-- ===== src/Hash/Map/RobinHood.antt =====
-- collections/hash/map.rs: `robin_hood` puts an element where it belongs and moves on those that
-- are nearer to their ideal bucket.
use native.Mathlib.Nat.{mod-lt}
use mathlib.Core.Path.{subst}
use rust_libstd.Prelude.{
  ℕ, zero, suc, ◌+◌, ◌%◌, ◌≤◌, ◌<◌, ◌≡◌, ◌≢◌, ◌⊎◌, ◌↔◌, refl, sym, ◌∙◌, ap, ltb, none, some,
  length-set, arith, Bool-cases, Option-cases, inl, inr,
}
use rust_libstd.Hash.Table.{
  Keys, make_hash, Entry, RawTable, next, distance, displacement, capacity, peek, put, replace,
}
use rust_libstd.Hash.Table.Walk.{
  next-lt, distance-lt, distance-next, distance-next_to, next-inj, height-le-distance,
}
use rust_libstd.Hash.Table.State.{height, Has, IsTable, IsAbsent, Fits}
use rust_libstd.Hash.Table.Write.{
  height-here, write-IsTable, write-cases, write-there, fill-Has, swap-Has,
}
use rust_libstd.Hash.Map.{robin_loop, robin_hood}

module _ {K V : Type 0} (keys : Keys K) where
  -- The table `t'` is `t` with one element more.
  pub record Stored (t : RawTable K V) (e : Entry K V) (t' : RawTable K V) : Type 0 where
    pub inv : IsTable keys t'
    pub capacity_same : capacity t' ≡ capacity t
    pub counted : t'.size ≡ t.size + 1
    pub has : (x : Entry K V) → Has t' x ↔ ((x ≡ e) ⊎ Has t x)

module _ {K V : Type 0} (keys : Keys K) (p : ℕ) where
  -- The loop carries `e`, with displacement `d` at the bucket `i`.
  pub record Carrying (t : RawTable K V) (i d : ℕ) (e : Entry K V) : Type 0 where
    pub inv : IsTable keys t
    pub at : i < capacity t
    pub far : d ≡ displacement (capacity t) i e.hash
    pub fits : Fits t i d
    pub hash : e.hash ≡ make_hash keys e.key
    pub fresh : IsAbsent t e.key
    pub end : p < capacity t
    pub empty : peek t p ≡ none

  module _ (t : RawTable K V) (i d : ℕ) (e : Entry K V) (on : Carrying t i d e) where
    pub fills : peek t i ≡ none → Stored keys t e (put i e t)
    fills gone =
        let low : height t i ≡ 0 = rw gone refl in
        record {
          inv =
              write-IsTable t i on.at e (t.size + 1) keys on.inv
                (λ j hj nx. omega (arith, on.fits j hj nx, on.far)) (omega (arith, low)) on.hash
                (λ j x apart h. on.fresh j x h) (rw gone (omega arith));
          capacity_same = length-set t.buckets i (some e);
          counted = refl;
          has = fill-Has t i on.at e (t.size + 1) gone;
        }

    module _ (old : Entry K V) (here : peek t i ≡ some old) where
      abbrev od : ℕ
      od = displacement (capacity t) i old.hash

      tall : height t i ≡ suc od
      tall = rw here refl

      apart_p : i ≢ p
      apart_p same = cc (ap (peek t) same, here, on.empty)

      nearer : distance (capacity t) (next (capacity t) i) p + 1 ≡ distance (capacity t) i p
      nearer = distance-next_to (capacity t) i p on.at on.end apart_p

      mod-lt-capacity : (n : ℕ) → n % capacity t < capacity t
      mod-lt-capacity n = mod-lt n (omega (arith, on.at))

      -- No element is as far as the whole table from its ideal bucket.
      room : od + 1 < capacity t
      room =
          let low =
            height-le-distance (capacity t) (height t) on.inv.gentle p i on.end on.at
              (rw on.empty refl) in
          omega (arith, low, tall, distance-lt (capacity t) p i on.end on.at)

      passes : d ≤ od → Carrying t (next (capacity t) i) (d + 1) e
      passes le = record {
        inv = on.inv;
        at = next-lt (capacity t) i on.at;
        far = omega (
          arith,
          on.far,
          distance-next (capacity t) (e.hash % capacity t) i (mod-lt-capacity e.hash) on.at
              (omega (arith, room, on.far)),
        );
        fits = λ j hj nx.
            let same = next-inj (capacity t) j i hj on.at nx in
            omega (arith, le, tall, ap (height t) same);
        hash = on.hash;
        fresh = on.fresh;
        end = on.end;
        empty = on.empty;
      }

      replace-IsTable : od < d → IsTable keys (replace i e t)
      replace-IsTable lt =
          write-IsTable t i on.at e t.size keys on.inv
            (λ j hj nx. omega (arith, on.fits j hj nx, on.far)) (omega (arith, tall, on.far))
            on.hash (λ j x apart h. on.fresh j x h) (rw here (omega arith))

      steals : od < d → Carrying (replace i e t) (next (capacity t) i) (od + 1) old
      steals lt =
          let same_c = length-set t.buckets i (some e) in
          let ideal = mod-lt-capacity old.hash in
          record {
            inv = replace-IsTable lt;
            at = rw same_c (next-lt (capacity t) i on.at);
            far =
                rw same_c
                  (sym (distance-next (capacity t) (old.hash % capacity t) i ideal on.at room));
            fits =
                subst
                  (λ c.
                    (j : ℕ)
                    → j < c
                    → next c j ≡ next (capacity t) i
                    → od + 1 ≤ height (replace i e t) j)
                  (sym same_c)
                  (λ j hj nx.
                    let same = next-inj (capacity t) j i hj on.at nx in
                    omega (
                      arith,
                      lt,
                      on.far,
                      ap (height (replace i e t)) same,
                      height-here t i on.at e t.size,
                    ));
            hash = on.inv.hashed i old here;
            fresh = λ j x h same. elim (write-cases t i on.at e t.size j x h) [
              | inl (at, it) ↦ on.fresh i old here (sym same ∙ ap (λ y. y.key) it)
              | inr (apart, was) ↦ apart (on.inv.unique i j old x here was (sym same))
            ];
            end = rw same_c on.end;
            empty = write-there t i on.at e t.size p apart_p ∙ on.empty;
          }

      -- What the rest of the loop makes of the table in which `e` stands at `i`.
      stolen-Stored : (t' : RawTable K V) → Stored keys (replace i e t) old t' → Stored keys t e t'
      stolen-Stored t' st =
          let swap = swap-Has t i on.at e t.size old here in
          record {
            inv = st.inv;
            capacity_same = st.capacity_same ∙ length-set t.buckets i (some e);
            counted = st.counted;
            has = λ x. (λ h. (swap x).0 ((st.has x).0 h), λ h. (st.has x).1 ((swap x).1 h));
          }

  robin_loop-Stored :
      (fuel : ℕ) (t : RawTable K V) (i d : ℕ) (e : Entry K V)
      → Carrying t i d e
      → distance (capacity t) i p < fuel
      → (t' : RawTable K V) × (robin_loop fuel t i d e ≡ some t') × Stored keys t e t'
  unfolding robin_loop
  robin_loop-Stored zero t i d e on lt = absurd (omega arith)
  robin_loop-Stored (suc fuel) t i d e on lt = elim (Option-cases (peek t i)) [
    | inl gone ↦ rw gone (put i e t, refl, fills t i d e on gone)
    | inr (old, here) ↦ elim (Bool-cases (ltb (displacement (capacity t) i old.hash) d)) [
      | inl near ↦
          let lt_d : displacement (capacity t) i old.hash < d = ground arith in
          let same_c = length-set t.buckets i (some e) in
          let enough : distance (capacity (replace i e t)) (next (capacity t) i) p < fuel =
            rw same_c (omega (arith, nearer t i d e on old here)) in
          let (t', runs, st) =
            robin_loop-Stored fuel (replace i e t) (next (capacity t) i)
              (displacement (capacity t) i old.hash + 1) old (steals t i d e on old here lt_d)
              enough in
          rw (here, near) (t', runs, stolen-Stored t i d e on old here t' st)
      | inr far ↦
          rw (here, far)
            (robin_loop-Stored fuel t (next (capacity t) i) (d + 1) e
              (passes t i d e on old here (ground arith))
              (omega (arith, nearer t i d e on old here)))
    ]
  ]

  pub robin_hood-Stored :
      (fuel : ℕ) (t : RawTable K V) (i d : ℕ) (e old : Entry K V)
      → Carrying t i d e
      → peek t i ≡ some old
      → displacement (capacity t) i old.hash < d
      → capacity t ≤ fuel
      → (t' : RawTable K V) × (robin_hood fuel t i (displacement (capacity t) i old.hash) e
          ≡ some t')
        × Stored keys t e t'
  unfolding robin_hood
  robin_hood-Stored fuel t i d e old on here lt enough =
      let on' = steals t i d e on old here lt in
      let near = distance-lt (capacity (replace i e t)) (next (capacity t) i) p on'.at on'.end in
      let same_c = length-set t.buckets i (some e) in
      let (t', runs, st) =
        robin_loop-Stored fuel (replace i e t) (next (capacity t) i)
          (displacement (capacity t) i old.hash + 1) old on' (omega (arith, near, same_c)) in
      rw here (t', runs, stolen-Stored t i d e on old here t' st)
