-- ===== src/Hash/Map/Remove.antt =====
-- collections/hash/map.rs: `pop_internal` and `remove` keep the table in order and take one key out.
use mathlib.Core.Path.{subst}
use rust_libstd.Prelude.{
  ℕ, zero, suc, ◌+◌, ◌-◌, ◌≤◌, ◌<◌, ◌≡◌, ◌≢◌, ◌↔◌, refl, sym, ◌∙◌, ap, ◌==◌, Option, none, some,
  length-set, get_or-some, arith, Bool-cases, Option-cases, inl, inr,
}
use rust_libstd.Hash.Table.{
  Keys, Entry, RawTable, next, distance, displacement, capacity, peek, take, shift,
}
use rust_libstd.Hash.Table.Walk.{next-lt, distance-lt, distance-next_to}
use rust_libstd.Hash.Table.State.{
  KeyLaws, eq-Matches, height, Holds, IsAbsent, IsTable, HasRoom, spare-Hole, full_count-some,
}
use rust_libstd.Hash.Table.Gap.{Gapped, Closed, closes}
use rust_libstd.Hash.Table.Gap.Shift.{cap, shift-Gapped, shift-Closed}
use rust_libstd.Hash.Table.Gap.Take.{take-counted, take-Gapped, take-Has}
use rust_libstd.Hash.Map.{
  InternalEntry, occupied, neq_elem, no_elem, table_is_empty, shift_loop, pop_internal,
}
use rust_libstd.Hash.Map.Search.{Found, search_hashed-Found}
use rust_libstd.Hash.Map.Calls.{remove_found, remove}
use rust_libstd.Hash.Map.Lookup.{Holds-here, IsAbsent-Holds}

abbrev pub removed {ℓ} : {A : Type ℓ} → Option A → ℕ
removed none = 0
removed (some a) = 1

module _ {K V : Type 0} (keys : Keys K) where
  -- The table `t'` is `t` without the key `k`, and `old` is what it had for it.
  pub record Removed (t : RawTable K V) (k : K) (old : Option V) (t' : RawTable K V) : Type 0 where
    pub inv : IsTable keys t'
    pub capacity_same : capacity t' ≡ capacity t
    pub counted : t.size ≡ t'.size + removed old
    pub taken : (u : V) → (old ≡ some u) ↔ Holds t k u
    pub holds : (x : K) (u : V) → Holds t' x u ↔ ((x ≢ k) × Holds t x u)

  absent-Removed : (t : RawTable K V) (k : K) → IsTable keys t → IsAbsent t k → Removed t k none t
  absent-Removed t k inv absent = record {
    inv = inv;
    capacity_same = refl;
    counted = omega arith;
    taken = IsAbsent-Holds keys t k inv absent;
    holds = λ x u. (
      λ (e, (j, here), key, val). (λ same. absent j e here (key ∙ same), (e, (j, here), key, val)),
      λ (ne, held). held,
    );
  }

  taken-Removed :
      (t t' : RawTable K V) (i : ℕ) (e : Entry K V)
      → IsTable keys t
      → peek t i ≡ some e
      → Closed keys (take i t) t'
      → Removed t e.key (some e.val) t'
  taken-Removed t t' i e inv here cl = record {
    inv = cl.inv;
    capacity_same = cl.capacity_same ∙ length-set t.buckets i none;
    counted = omega (arith, cl.size_same, (take-counted keys t inv i e here).0);
    taken = Holds-here keys t e.key inv i e here refl;
    holds = λ x u. (
      λ (y, has, key, val).
          let (other, was) = (take-Has keys t inv i e here y).0 ((cl.has y).0 has) in
          (λ same. other (key ∙ same), (y, was, key, val)),
      λ (ne, (y, was, key, val)). (
        y,
        (cl.has y).1 ((take-Has keys t inv i e here y).1 (λ same. ne (sym key ∙ same), was)),
        key,
        val,
      ),
    );
  }

  module _ (p : ℕ) where
    shift_loop-Closed :
        (fuel : ℕ) (t : RawTable K V) (gap m : ℕ)
        → Gapped keys p t gap m
        → distance (capacity t) (next (capacity t) gap) p < fuel
        → (t' : RawTable K V) × (shift_loop fuel t gap ≡ some t') × Closed keys t t'
    unfolding shift_loop
    shift_loop-Closed zero t gap m g lt = absurd (omega arith)
    shift_loop-Closed (suc fuel) t gap m g lt =
        let c = capacity t in
        let f = next (capacity t) gap in
        elim (Option-cases (peek t f)) [
          | inl gone ↦
              let low : height t f ≡ 0 = rw gone refl in
              rw gone (t, refl, closes keys p t gap m g (omega (arith, low)))
          | inr (e, here) ↦
              let tall : height t f ≡ suc (displacement c f e.hash) = rw here refl in
              elim (Bool-cases (displacement c f e.hash == 0)) [
                | inl home ↦
                    rw (here, home) (t, refl, closes keys p t gap m g (ground (arith, tall, home)))
                | inr away ↦
                    let n : ℕ = displacement c f e.hash - 1 in
                    let far : displacement c f e.hash ≡ suc n = ground arith in
                    let ne : f ≢ p = λ it. cc (ap (peek t) it, here, g.empty) in
                    let nearer = distance-next_to c f p (next-lt c gap g.at) g.end ne in
                    let same_c = cap keys p t gap m g f refl e n here far in
                    let lt' : distance (capacity (shift gap f e t))
                          (next (capacity (shift gap f e t)) f) p
                        < fuel =
                      rw same_c (omega (arith, nearer)) in
                    let (t', runs, cl) =
                      shift_loop-Closed fuel (shift gap f e t) f (suc (suc n))
                        (shift-Gapped keys p t gap m g f refl e n here far) lt' in
                    rw (here, away)
                      (t', runs, shift-Closed keys p t gap m g f refl e n here far t' cl)
              ]
        ]

  pub pop_internal-Removed :
      (fuel : ℕ) (t : RawTable K V) (i : ℕ) (e : Entry K V)
      → IsTable keys t
      → t.size < capacity t
      → capacity t ≤ fuel
      → peek t i ≡ some e
      → (t' : RawTable K V) × (pop_internal fuel t i ≡ some t') × Removed t e.key (some e.val) t'
  unfolding pop_internal
  pop_internal-Removed fuel t i e inv spare enough here =
      let (p, hp, empty) = spare-Hole t.buckets (omega (arith, inv.counted)) in
      let g = take-Gapped keys t inv i e here p hp empty in
      let c = capacity (take i t) in
      let near = distance-lt c (next c i) p (next-lt c i g.at) g.end in
      let same_c = length-set t.buckets i none in
      let (t', runs, cl) =
        shift_loop-Closed p fuel (take i t) i (height t i) g (omega (arith, near, same_c)) in
      (t', runs, taken-Removed t t' i e inv here cl)

  remove_found-Removed :
      (fuel : ℕ) (t : RawTable K V) (k : K)
      → IsTable keys t
      → HasRoom t
      → capacity t ≤ fuel
      → (r : InternalEntry) → Found keys t k r
      → (old : Option V) × (t' : RawTable K V) × (remove_found fuel t (some r) ≡ some (old, t'))
        × Removed t k old t'
  remove_found-Removed fuel t k inv (inl spare) enough (occupied i) (e, here, same) =
      let (t', runs, gone) = pop_internal-Removed fuel t i e inv spare enough here in
      rw (runs, here) (some e.val, t', refl, subst (λ x. Removed t x (some e.val) t') same gone)
  remove_found-Removed fuel t k inv (inr nothing) enough (occupied i) (e, here, same) =
      absurd (omega (arith, nothing, get_or-some t.buckets i e here))
  remove_found-Removed fuel t k inv room enough (neq_elem i disp)
        (e, d, here, eq, far, lt, fits, absent) =
      (none, t, refl, absent-Removed t k inv absent)
  remove_found-Removed fuel t k inv room enough (no_elem i d) (hi, gone, far, fits, absent) =
      (none, t, refl, absent-Removed t k inv absent)
  remove_found-Removed fuel t k inv room enough table_is_empty nothing =
      let absent : IsAbsent t k =
        λ i e here. absurd (omega (arith, get_or-some t.buckets i e here, nothing)) in
      (none, t, refl, absent-Removed t k inv absent)

  -- Where keys are compared by equality, a table in order has an empty bucket or no bucket at all,
  -- and the fuel is at least the capacity: remove returns a table in order of the same capacity
  -- that holds for every key but the given one what the first one holds, with one element less just
  -- where the key was there, and it gives the value that the key had.
  pub remove-Removed :
      (fuel : ℕ) (t : RawTable K V) (k : K)
      → KeyLaws keys
      → IsTable keys t
      → HasRoom t
      → capacity t ≤ fuel
      → (old : Option V) × (t' : RawTable K V) × (remove fuel keys t k ≡ some (old, t'))
        × Removed t k old t'
  unfolding remove
  remove-Removed fuel t k laws inv room enough = elim (Bool-cases (t.size == 0)) [
    | inl empty ↦
        let absent : IsAbsent t k = λ i e here.
          absurd (ground (arith, full_count-some t.buckets i e here, inv.counted, empty)) in
        rw empty (none, t, refl, absent-Removed t k inv absent)
    | inr some_size ↦
        let (r, runs, found) =
          search_hashed-Found keys t k (keys.eq k) fuel (eq-Matches keys laws k) inv room enough in
        rw (some_size, runs) (remove_found-Removed fuel t k inv room enough r found)
  ]
