-- ===== src/Hash/Map/Calls.antt =====
-- collections/hash/map.rs: the calls of `HashMap` that look up, insert and remove without resizing.
use mathlib.Core.Option
use rust_libstd.Prelude.{ℕ, ◌==◌, if◌then◌else◌, Bool, true, false, Option, none, some, Outcome}
use rust_libstd.Hash.Table.{Keys, make_hash, Entry, RawTable, peek}
use rust_libstd.Hash.Map.{
  InternalEntry, occupied, neq_elem, no_elem, table_is_empty, search_hashed, pop_internal,
  insert_at,
}

-- `InternalEntry::into_occupied_bucket`.
abbrev pub into_occupied_bucket : InternalEntry → Option ℕ
into_occupied_bucket (occupied idx) = some idx
into_occupied_bucket (neq_elem idx disp) = none
into_occupied_bucket (no_elem idx disp) = none
into_occupied_bucket table_is_empty = none

abbrev pub is_some {ℓ} : {A : Type ℓ} → Option A → Bool
is_some none = false
is_some (some a) = true

module _ {K V : Type 0} where
  abbrev pub val_at : RawTable K V → Option ℕ → Option V
  val_at table none = none
  val_at table (some idx) = Option.map (λ e. e.val) (peek table idx)

  unfoldable pub get : ℕ → Keys K → RawTable K V → K → Option (Option V)
  get fuel keys table k =
      Option.map (λ r. val_at table (into_occupied_bucket r))
        (search_hashed fuel table (make_hash keys k) (keys.eq k))

  unfoldable pub contains_key : ℕ → Keys K → RawTable K V → K → Option Bool
  contains_key fuel keys table k =
      Option.map (λ r. is_some (into_occupied_bucket r))
        (search_hashed fuel table (make_hash keys k) (keys.eq k))

  abbrev pub insert_found :
      ℕ
      → RawTable K V
      → Entry K V
      → Option InternalEntry
      → Option (Outcome (Option V × RawTable K V))
  insert_found fuel table e none = none
  insert_found fuel table e (some entry) = insert_at fuel table e entry

  unfoldable pub insert_hashed_nocheck :
      ℕ → Keys K → RawTable K V → ℕ → K → V → Option (Outcome (Option V × RawTable K V))
  insert_hashed_nocheck fuel keys table hash k v =
      insert_found fuel table (record { hash = hash; key = k; val = v })
        (search_hashed fuel table hash (λ key. keys.eq key k))

  abbrev pub pop_at : ℕ → RawTable K V → Option ℕ → Option (Option V × RawTable K V)
  pop_at fuel table none = some (none, table)
  pop_at fuel table (some idx) =
      Option.map (λ t. (val_at table (some idx), t)) (pop_internal fuel table idx)

  abbrev pub remove_found :
      ℕ → RawTable K V → Option InternalEntry → Option (Option V × RawTable K V)
  remove_found fuel table none = none
  remove_found fuel table (some entry) = pop_at fuel table (into_occupied_bucket entry)

  unfoldable pub remove : ℕ → Keys K → RawTable K V → K → Option (Option V × RawTable K V)
  remove fuel keys table k =
      let found =
        remove_found fuel table (search_hashed fuel table (make_hash keys k) (keys.eq k)) in
      if table.size == 0 then some (none, table) else found
