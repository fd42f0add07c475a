-- ===== src/Hash/Map.antt =====
-- collections/hash/map.rs: the Robin Hood hashing of `HashMap`, whose state is its table. The loops
-- of the source end at an empty bucket; here they run on fuel, and `none` means that it ran out.
pub mod Search
pub mod RobinHood
pub mod Calls
pub mod Lookup
pub mod Insert
pub mod Remove
pub mod Laws
use mathlib.Core.Option
use rust_libstd.Prelude.{
  ℕ, zero, suc, ◌+◌, ◌-◌, ◌*◌, ◌/◌, ◌%◌, ◌^◌, max, Bool, true, false, ◌&&◌, ltb, leb, ◌==◌,
  if◌then◌else◌, Option, none, some, List, [], ◌∷◌, Outcome, ok, panic,
}
use rust_libstd.Hash.Table
use rust_libstd.Hash.Table.{
  Keys, make_hash, Entry, RawTable, next, prev, displacement, capacity, peek, put, take, replace,
  shift,
}

abbrev pub displacement_threshold : ℕ
displacement_threshold = 128

abbrev pub min_nonzero_raw_capacity : ℕ
min_nonzero_raw_capacity = 32

-- `InternalEntry`: a bucket is the index of it, and `hash` is that of the caller.
pub data InternalEntry : Type 0 where
  occupied : ℕ → InternalEntry
  neq_elem no_elem : ℕ → ℕ → InternalEntry
  table_is_empty : InternalEntry

module _ {K V : Type 0} where
  -- One round of `search_hashed`, at the bucket `idx`.
  abbrev pub probe :
      (ℕ → ℕ → Option InternalEntry)
      → ℕ
      → ℕ
      → (K → Bool)
      → ℕ
      → ℕ
      → Option (Entry K V)
      → Option InternalEntry
  probe again c hash is_match idx disp none = some (no_elem idx disp)
  probe again c hash is_match idx disp (some e) =
      let rest = again (next c idx) (disp + 1) in
      if ltb (displacement c idx e.hash) disp
      then some (neq_elem idx (displacement c idx e.hash))
      else if hash == e.hash && is_match e.key
      then some (occupied idx)
      else rest

  unfoldable pub search_loop : RawTable K V → ℕ → (K → Bool) → ℕ → ℕ → ℕ → Option InternalEntry
  search_loop table hash is_match zero idx disp = none
  search_loop table hash is_match (suc fuel) idx disp =
      probe (search_loop table hash is_match fuel) (capacity table) hash is_match idx disp
        (peek table idx)

  unfoldable pub search_hashed : ℕ → RawTable K V → ℕ → (K → Bool) → Option InternalEntry
  unfolding search_loop
  search_hashed fuel table hash is_match =
      let found = search_loop table hash is_match fuel (hash % capacity table) 0 in
      if capacity table == 0 then some table_is_empty else found

  -- `pop_internal`: after `take`, the loop at the gap.
  abbrev pub close_gap :
      (RawTable K V → ℕ → Option (RawTable K V))
      → RawTable K V
      → ℕ
      → Option (Entry K V)
      → Option (RawTable K V)
  close_gap again table gap none = some table
  close_gap again table gap (some e) =
      let c = capacity table in
      let rest = again (shift gap (next c gap) e table) (next c gap) in
      if displacement c (next c gap) e.hash == 0 then some table else rest

  unfoldable pub shift_loop : ℕ → RawTable K V → ℕ → Option (RawTable K V)
  shift_loop zero table gap = none
  shift_loop (suc fuel) table gap =
      close_gap (shift_loop fuel) table gap (peek table (next (capacity table) gap))

  unfoldable pub pop_internal : ℕ → RawTable K V → ℕ → Option (RawTable K V)
  unfolding shift_loop
  pop_internal fuel table idx = shift_loop fuel (take idx table) idx

  -- One round of the inner loop of `robin_hood`, at the bucket `idx` behind the last; `disp` is
  -- the displacement that the carried element has there.
  abbrev pub settle :
      (RawTable K V → ℕ → ℕ → Entry K V → Option (RawTable K V))
      → RawTable K V
      → ℕ
      → ℕ
      → Entry K V
      → Option (Entry K V)
      → Option (RawTable K V)
  settle again table idx disp carried none = some (put idx carried table)
  settle again table idx disp carried (some e) =
      let c = capacity table in
      let stolen =
        again (replace idx carried table) (next c idx) (displacement c idx e.hash + 1) e in
      let passed = again table (next c idx) (disp + 1) carried in
      if ltb (displacement c idx e.hash) disp then stolen else passed

  unfoldable pub robin_loop : ℕ → RawTable K V → ℕ → ℕ → Entry K V → Option (RawTable K V)
  robin_loop zero table idx disp carried = none
  robin_loop (suc fuel) table idx disp carried =
      settle (robin_loop fuel) table idx disp carried (peek table idx)

  -- The bucket `idx` is full with the element `old`, whose displacement is `disp`.
  abbrev pub kick :
      ℕ → RawTable K V → ℕ → ℕ → Entry K V → Option (Entry K V) → Option (RawTable K V)
  kick fuel table idx disp e none = none
  kick fuel table idx disp e (some old) =
      robin_loop fuel (replace idx e table) (next (capacity table) idx) (disp + 1) old

  unfoldable pub robin_hood : ℕ → RawTable K V → ℕ → ℕ → Entry K V → Option (RawTable K V)
  unfolding robin_loop
  robin_hood fuel table idx disp e = kick fuel table idx disp e (peek table idx)

  -- `set_tag(true)` after a long probe.
  abbrev pub tagged : ℕ → RawTable K V → RawTable K V
  tagged disp table = if leb displacement_threshold disp then record table { tag = true } else table

  -- `OccupiedEntry::insert` keeps the key that is there.
  abbrev pub overwrite : RawTable K V → ℕ → V → Option (Entry K V) → Option V × RawTable K V
  overwrite table idx v none = (none, table)
  overwrite table idx v (some e) = (some e.val, replace idx (record e { val = v }) table)

  -- `insert_hashed_nocheck`, on what the search found; `VacantEntry::insert`.
  abbrev pub insert_at :
      ℕ → RawTable K V → Entry K V → InternalEntry → Option (Outcome (Option V × RawTable K V))
  insert_at fuel table e (occupied idx) = some (ok (overwrite table idx e.val (peek table idx)))
  insert_at fuel table e (neq_elem idx disp) =
      Option.map (λ t. ok (none, t)) (robin_hood fuel (tagged disp table) idx disp e)
  insert_at fuel table e (no_elem idx disp) = some (ok (none, put idx e (tagged disp table)))
  insert_at fuel table e table_is_empty = some panic
