-- ===== src/Hash/Resize/Grow.antt =====
-- collections/hash/map.rs: `resize` keeps every element, and its assertions hold.
use rust_libstd.Hash.Table
use rust_libstd.Prelude.{
  ℕ, ◌≤◌, ◌<◌, ◌≡◌, ◌↔◌, refl, sym, ◌∙◌, true, false, ◌||◌, ltb, ◌==◌, some, get_or-some, ok, arith,
  Bool-cases, inl, inr,
}
use rust_libstd.Hash.Table.{Keys, Entry, RawTable, distance, capacity, peek, head_bucket}
use rust_libstd.Hash.Table.Walk.{distance-lt}
use rust_libstd.Hash.Table.State.{
  full_count-some, full_count-le, Has, HasRoom, IsTable, new-IsTable, new-size, new-capacity,
}
use rust_libstd.Hash.Table.Head.{head_bucket-Head}
use rust_libstd.Hash.Resize.{is_power_of_two, move_from, resize}
use rust_libstd.Hash.Resize.Moving.{Moving, Joined, move_loop-Joined}

module _ {K V : Type 0} (keys : Keys K) (t : RawTable K V) (inv : IsTable keys t) where
  nothing-Has : (o : RawTable K V) → IsTable keys o → o.size ≡ 0 → (x : Entry K V) → ¬ Has o x
  nothing-Has o ord empty x (i, at) =
      omega (arith, full_count-some o.buckets i x at, ord.counted, empty)

  moves :
      (fuel r : ℕ)
      → 0 < t.size
      → t.size < capacity t
      → t.size ≤ r
      → capacity t ≤ fuel
      → r ≤ fuel
      → (t' : RawTable K V) × (move_from fuel t (Table.new r) (head_bucket fuel t 0) ≡ some t')
        × Joined t (Table.new r) t'
  moves fuel r filled spare fits enough enough_r =
      let (i, runs, hi, head) = head_bucket-Head keys t inv fuel filled spare enough in
      let on : Moving fuel fuel t (Table.new r) i = record {
        counted_old = inv.counted;
        counted = (new-IsTable V keys r).counted;
        at = hi;
        left = filled;
        room = omega (arith, new-size V keys r, new-capacity V keys r, fits);
        enough = omega (arith, new-capacity V keys r, enough_r);
        reach = λ f x h.
            omega (arith, distance-lt (capacity t) i f hi (get_or-some t.buckets f x h), enough);
      } in
      rw runs (move_loop-Joined fuel fuel t (Table.new r) i on)

  -- The table `t'` has the elements of `t` in `r` buckets.
  pub record Resized (t' : RawTable K V) (r : ℕ) : Type 0 where
    pub capacity_is : capacity t' ≡ r
    pub size_same : t'.size ≡ t.size
    pub has : (x : Entry K V) → Has t' x ↔ Has t x

  new-Resized : (r : ℕ) → t.size ≡ 0 → Resized (Table.new r) r
  new-Resized r empty = record {
    capacity_is = new-capacity V keys r;
    size_same = new-size V keys r ∙ sym empty;
    has = λ x. (
      λ h. absurd (nothing-Has (Table.new r) (new-IsTable V keys r) (new-size V keys r) x h),
      λ h. absurd (nothing-Has t inv empty x h),
    );
  }

  Joined-Resized : (t' : RawTable K V) (r : ℕ) → Joined t (Table.new r) t' → Resized t' r
  Joined-Resized t' r done = record {
    capacity_is = done.capacity_same ∙ new-capacity V keys r;
    size_same = omega (arith, done.size_sum, new-size V keys r);
    has = λ x. (
      λ h. elim ((done.has x).0 h) [
        | inl was ↦ was
        | inr fresh ↦
            absurd (nothing-Has (Table.new r) (new-IsTable V keys r) (new-size V keys r) x fresh)
      ],
      λ h. (done.has x).1 (inl h),
    );
  }

  spare_of : HasRoom t → 0 < t.size → t.size < capacity t
  spare_of (inl spare) filled = spare
  spare_of (inr nothing) filled =
      absurd (omega (arith, full_count-le t.buckets, inv.counted, nothing, filled))

  -- Where a table in order has an empty bucket or no bucket at all, the new raw capacity is 0 or a
  -- power of two and at least the number of elements, and the fuel is at least both capacities:
  -- resize returns, so that its assertions hold, and the new table has that raw capacity and just
  -- the elements of the first, as many of them.
  pub resize-Resized :
      (fuel r : ℕ)
      → HasRoom t
      → t.size ≤ r
      → (is_power_of_two r || r == 0) ≡ true
      → capacity t ≤ fuel
      → r ≤ fuel
      → (t' : RawTable K V) × (resize fuel t r ≡ some (ok t')) × Resized t' r
  unfolding resize
  resize-Resized fuel r room fits power enough enough_r =
      let asserted : ltb r t.size ≡ false = ground (arith, fits) in
      elim (Bool-cases (t.size == 0)) [
        | inl empty ↦
            rw (asserted, power, empty) (Table.new r, refl, new-Resized r (ground (arith, empty)))
        | inr filled ↦
            let positive : 0 < t.size = ground (arith, filled) in
            let (t', runs, done) =
              moves fuel r positive (spare_of room positive) fits enough enough_r in
            let res = Joined-Resized t' r done in
            let size : (t'.size == t.size) ≡ true = ground (arith, res.size_same) in
            rw (asserted, power, filled, runs, size) (t', refl, res)
      ]
