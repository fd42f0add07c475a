-- ===== src/Hash/Resize/Moving.antt =====
-- collections/hash/map.rs: `resize` moves every element to the new table, once.
use rust_libstd.Prelude.{
  ℕ, zero, suc, ◌+◌, ◌-◌, ◌≤◌, ◌<◌, ◌≡◌, ◌≢◌, ◌⊎◌, ◌↔◌, refl, sym, ◌∙◌, ap, ◌==◌, Option, none,
  some, length-set, get_or-some, arith, Bool-cases, Option-cases, inl, inr,
}
use rust_libstd.Hash.Table.{Entry, RawTable, next, distance, capacity, peek, take}
use rust_libstd.Hash.Table.Walk.{next-lt, distance-next_to}
use rust_libstd.Hash.Table.State.{full_count-set, fullness, full_count-some, Has}
use rust_libstd.Hash.Table.Write.{peek-same, peek-write}
use rust_libstd.Hash.Table.Gap.{not-same, same-test}
use rust_libstd.Hash.Table.Head.{some-full}
use rust_libstd.Hash.Resize.Placing.{IsCounted, Placed, insert_hashed_ordered-Placed}
use rust_libstd.Hash.Resize.{move_loop}

module _ {K V : Type 0} where
  -- The table `t'` has the elements of two tables.
  pub record Joined (old table t' : RawTable K V) : Type 0 where
    pub counted : IsCounted t'
    pub capacity_same : capacity t' ≡ capacity table
    pub size_sum : t'.size ≡ old.size + table.size
    pub has : (x : Entry K V) → Has t' x ↔ (Has old x ⊎ Has table x)

  none-Joined :
      (old table : RawTable K V)
      → IsCounted old
      → IsCounted table
      → old.size ≡ 0
      → Joined old table table
  none-Joined old table counted_old counted empty = record {
    counted = counted;
    capacity_same = refl;
    size_sum = omega (arith, empty);
    has = λ x. (
      λ h. inr h,
      λ or. elim or [
        | inl (i, at) ↦
            absurd (omega (arith, full_count-some old.buckets i x at, counted_old, empty))
        | inr h ↦ h
      ],
    );
  }

  module _ (old : RawTable K V) (idx : ℕ) (e : Entry K V) (counted_old : IsCounted old)
      (here : peek old idx ≡ some e) where
    hi : idx < capacity old
    hi = get_or-some old.buckets idx e here

    taken-IsCounted : (old.size ≡ suc (take idx old).size) × IsCounted (take idx old)
    taken-IsCounted =
        let write = full_count-set old.buckets idx none hi in
        (
          omega (arith, write, ap fullness here, counted_old),
          omega (arith, write, ap fullness here, counted_old),
        )

    taken_here : peek (take idx old) idx ≡ none
    taken_here =
        let this = same-test idx idx refl in
        rw (peek-write old idx hi none (old.size - 1) idx, this) refl

    taken_there : (j : ℕ) → idx ≢ j → peek (take idx old) j ≡ peek old j
    taken_there j ne =
        let other = not-same idx j ne in
        rw (peek-write old idx hi none (old.size - 1) j, other) refl

    taken-cases :
        (j : ℕ) (x : Entry K V) → peek (take idx old) j ≡ some x → (idx ≢ j) × (peek old j ≡ some x)
    taken-cases j x h =
        let ne : idx ≢ j = λ it. cc (ap (peek (take idx old)) it, taken_here, h) in
        (ne, sym (taken_there j ne) ∙ h)

    taken-Has : (x : Entry K V) → Has old x ↔ ((x ≡ e) ⊎ Has (take idx old) x)
    taken-Has x = (
      λ (j, h). elim (Bool-cases (idx == j)) [
        | inl this ↦
            let same : idx ≡ j = ground (arith, this) in
            inl (peek-same old j x e h (ap (peek old) (sym same) ∙ here))
        | inr other ↦ inr (j, taken_there j (ground (arith, other)) ∙ h)
      ],
      λ or. elim or [
        | inl it ↦ (idx, here ∙ ap some (sym it))
        | inr (j, h) ↦ (j, (taken-cases j x h).1)
      ],
    )

    Joined-to :
        (table t1 t' : RawTable K V) (x : Entry K V)
        → Placed table e t1
        → Joined (take idx old) t1 t'
        → Has t' x
        → Has old x ⊎ Has table x
    Joined-to table t1 t' x placed done h = elim ((done.has x).0 h) [
      | inl was ↦ inl ((taken-Has x).1 (inr was))
      | inr now ↦ elim ((placed.has x).0 now) [
        | inl it ↦ inl ((taken-Has x).1 (inl it))
        | inr there ↦ inr there
      ]
    ]

    Joined-from :
        (table t1 t' : RawTable K V) (x : Entry K V)
        → Placed table e t1
        → Joined (take idx old) t1 t'
        → Has old x ⊎ Has table x
        → Has t' x
    Joined-from table t1 t' x placed done (inl was) = elim ((taken-Has x).0 was) [
      | inl it ↦ (done.has x).1 (inr ((placed.has x).1 (inl it)))
      | inr rest ↦ (done.has x).1 (inl rest)
    ]
    Joined-from table t1 t' x placed done (inr there) =
        (done.has x).1 (inr ((placed.has x).1 (inr there)))

    moved-Joined :
        (table t1 t' : RawTable K V)
        → Placed table e t1
        → Joined (take idx old) t1 t'
        → Joined old table t'
    moved-Joined table t1 t' placed done = record {
      counted = done.counted;
      capacity_same = done.capacity_same ∙ placed.capacity_same;
      size_sum = omega (arith, done.size_sum, placed.one_more, taken-IsCounted.0);
      has = λ x. (Joined-to table t1 t' x placed done, Joined-from table t1 t' x placed done);
    }

  -- The loop stands at `idx`, and its fuel reaches all that is left.
  pub record Moving (fuel inner : ℕ) (old table : RawTable K V) (idx : ℕ) : Type 0 where
    pub counted_old : IsCounted old
    pub counted : IsCounted table
    pub at : idx < capacity old
    pub left : 0 < old.size
    pub room : old.size + table.size ≤ capacity table
    pub enough : capacity table ≤ inner
    pub reach : (f : ℕ) (x : Entry K V) → peek old f ≡ some x → distance (capacity old) idx f < fuel

  module _ (fuel inner : ℕ) (old table : RawTable K V) (idx : ℕ)
      (on : Moving (suc fuel) inner old table idx) where
    skips : peek old idx ≡ none → Moving fuel inner old table (next (capacity old) idx)
    skips gone = record {
      counted_old = on.counted_old;
      counted = on.counted;
      at = next-lt (capacity old) idx on.at;
      left = on.left;
      room = on.room;
      enough = on.enough;
      reach = λ f x h.
          let ne : idx ≢ f = λ it. cc (ap (peek old) it, gone, h) in
          let hf = get_or-some old.buckets f x h in
          omega (arith, on.reach f x h, distance-next_to (capacity old) idx f on.at hf ne);
    }

    takes :
        (e : Entry K V)
        → peek old idx ≡ some e
        → (t1 : RawTable K V) → Placed table e t1
        → 0 < (take idx old).size
        → Moving fuel inner (take idx old) t1 (next (capacity old) idx)
    takes e here t1 placed more =
        let (smaller, counted_left) = taken-IsCounted old idx e on.counted_old here in
        let same_c = length-set old.buckets idx none in
        record {
          counted_old = counted_left;
          counted = placed.counted;
          at = rw same_c (next-lt (capacity old) idx on.at);
          left = more;
          room = omega (arith, smaller, placed.one_more, placed.capacity_same, on.room);
          enough = omega (arith, on.enough, placed.capacity_same);
          reach = λ f x h.
              let (ne, was) = taken-cases old idx e on.counted_old here f x h in
              let hf = get_or-some old.buckets f x was in
              rw same_c (
                omega (arith, on.reach f x was, distance-next_to (capacity old) idx f on.at hf ne));
        }

  abbrev pub Ended : RawTable K V → RawTable K V → Option (RawTable K V) → Type 0
  Ended old table o = (t' : RawTable K V) × (o ≡ some t') × Joined old table t'

  pub move_loop-Joined :
      (fuel inner : ℕ) (old table : RawTable K V) (idx : ℕ)
      → Moving fuel inner old table idx
      → Ended old table (move_loop fuel inner old table idx)
  unfolding move_loop
  move_loop-Joined zero inner old table idx on =
      let (f, x, at) = some-full old.buckets (omega (arith, on.left, on.counted_old)) in
      absurd (omega (arith, on.reach f x at))
  move_loop-Joined (suc fuel) inner old table idx on = elim (Option-cases (peek old idx)) [
    | inl gone ↦ rw gone (
        move_loop-Joined fuel inner old table (next (capacity old) idx)
          (skips fuel inner old table idx on gone))
    | inr (e, here) ↦
        let (t1, runs, placed) =
          insert_hashed_ordered-Placed inner table e on.counted (omega (arith, on.left, on.room))
            on.enough in
        elim (Bool-cases ((take idx old).size == 0)) [
          | inl last ↦
              let (smaller, counted_left) = taken-IsCounted old idx e on.counted_old here in
              let done =
                none-Joined (take idx old) t1 counted_left placed.counted (ground (arith, last)) in
              rw (here, runs, last)
                (t1, refl, moved-Joined old idx e on.counted_old here table t1 t1 placed done)
          | inr more ↦
              let on' = takes fuel inner old table idx on e here t1 placed (ground (arith, more)) in
              let (t', goes, done) =
                move_loop-Joined fuel inner (take idx old) t1 (next (capacity old) idx) on' in
              rw (here, runs, more)
                (t', goes, moved-Joined old idx e on.counted_old here table t1 t' placed done)
        ]
  ]
