-- ===== src/Hash/Resize.antt =====
-- collections/hash/map.rs: the policy for the capacity of a `HashMap`, and the calls that change it.
-- The loops run on fuel, and `none` means that it ran out.
pub mod Policy
pub mod Listing
pub mod Load
pub mod Shrink
pub mod Placing
pub mod Moving
pub mod Grow
use Prim.Native.Nat.{bit_and}
use rust_libstd.Prelude.{
  ℕ, zero, suc, ◌+◌, ◌-◌, ◌*◌, ◌/◌, ◌%◌, ◌^◌, max, Bool, true, false, ◌&&◌, ◌||◌, ltb, leb, ◌==◌,
  if◌then◌else◌, Option, none, some, List, [], ◌∷◌, Outcome, ok, panic, expect, ◌>>=◌,
}
use rust_libstd.Prelude.Words.{add64, sub64, mul64, checked_add64}
use rust_libstd.Hash.Table
use rust_libstd.Hash.Table.{
  Keys, make_hash, Entry, RawTable, next, capacity, peek, put, take, head_bucket,
}
use rust_libstd.Hash.Map.{min_nonzero_raw_capacity}
use rust_libstd.Hash.Map.Calls.{insert_hashed_nocheck}

-- `usize::checked_next_power_of_two`: the smallest power of two that is not below `n`.
unfoldable pub next_power : ℕ → ℕ → ℕ → Option ℕ
next_power zero p n = none
next_power (suc fuel) p n = let rest = next_power fuel (p * 2) n in if leb n p then some p else rest

abbrev pub checked_next_power_of_two : ℕ → Option ℕ
checked_next_power_of_two n = next_power 64 1 n

-- `usize::is_power_of_two`.
abbrev pub is_power_of_two : ℕ → Bool
is_power_of_two n = ltb 0 n && bit_and n (n - 1) == 0

-- `DefaultResizePolicy::raw_capacity`.
unfoldable pub raw_capacity : ℕ → Outcome ℕ
raw_capacity len =
    let raw_cap = mul64 len 11 / 10 in
    let checked =
      expect (checked_next_power_of_two raw_cap) >>= λ p. ok (max min_nonzero_raw_capacity p) in
    if len == 0 then ok 0 else if ltb raw_cap len then panic else checked

-- `DefaultResizePolicy::capacity`.
unfoldable pub capacity_of : ℕ → ℕ
capacity_of raw_cap = sub64 (add64 (mul64 raw_cap 10) 10) 1 / 11

-- What follows a call that may run out of fuel, and may panic.
abbrev pub on_ok {ℓ κ} :
    {A : Type ℓ} {B : Type κ} → Option (Outcome A) → (A → Option (Outcome B)) → Option (Outcome B)
on_ok none f = none
on_ok (some panic) f = some panic
on_ok (some (ok a)) f = f a

module _ {K V : Type 0} where
  abbrev pub place_ordered :
      (ℕ → Option (RawTable K V))
      → RawTable K V
      → ℕ
      → Entry K V
      → Option (Entry K V)
      → Option (RawTable K V)
  place_ordered again table idx e none = some (put idx e table)
  place_ordered again table idx e (some old) = again (next (capacity table) idx)

  unfoldable pub ordered_loop : ℕ → RawTable K V → Entry K V → ℕ → Option (RawTable K V)
  ordered_loop zero table e idx = none
  ordered_loop (suc fuel) table e idx =
      place_ordered (ordered_loop fuel table e) table idx e (peek table idx)

  unfoldable pub insert_hashed_ordered : ℕ → RawTable K V → Entry K V → Option (RawTable K V)
  unfolding ordered_loop
  insert_hashed_ordered fuel table e = ordered_loop fuel table e (e.hash % capacity table)

  -- One round of the loop of `resize`, from the table `old` to the table `table`.
  abbrev pub bucket_moved :
      (RawTable K V → Option (RawTable K V))
      → RawTable K V
      → Option (RawTable K V)
      → Option (RawTable K V)
  bucket_moved again old none = none
  bucket_moved again old (some table) =
      let rest = again table in if old.size == 0 then some table else rest

  abbrev pub move_bucket :
      (RawTable K V → RawTable K V → ℕ → Option (RawTable K V))
      → ℕ
      → RawTable K V
      → RawTable K V
      → ℕ
      → Option (Entry K V)
      → Option (RawTable K V)
  move_bucket again inner old table idx none = again old table (next (capacity old) idx)
  move_bucket again inner old table idx (some e) =
      let rest : RawTable K V → Option (RawTable K V) =
        λ t. again (take idx old) t (next (capacity old) idx) in
      bucket_moved rest (take idx old) (insert_hashed_ordered inner table e)

  unfoldable pub move_loop : ℕ → ℕ → RawTable K V → RawTable K V → ℕ → Option (RawTable K V)
  move_loop zero inner old table idx = none
  move_loop (suc fuel) inner old table idx =
      move_bucket (move_loop fuel inner) inner old table idx (peek old idx)

  abbrev pub move_from : ℕ → RawTable K V → RawTable K V → Option ℕ → Option (RawTable K V)
  move_from fuel old table none = none
  move_from fuel old table (some head) = move_loop fuel fuel old table head

  -- `assert_eq!(self.table.size(), old_size)`.
  abbrev pub assert_size : ℕ → Option (RawTable K V) → Option (Outcome (RawTable K V))
  assert_size size none = none
  assert_size size (some table) = some (if table.size == size then ok table else panic)

  unfoldable pub resize : ℕ → RawTable K V → ℕ → Option (Outcome (RawTable K V))
  resize fuel table new_raw_cap =
      let fresh : RawTable K V = Table.new new_raw_cap in
      let full = assert_size table.size (move_from fuel table fresh (head_bucket fuel table 0)) in
      if ltb new_raw_cap table.size
      then some panic
      else if is_power_of_two new_raw_cap || new_raw_cap == 0
      then (if table.size == 0 then some (ok fresh) else full)
      else some panic

  unfoldable pub reserve : ℕ → RawTable K V → ℕ → Option (Outcome (RawTable K V))
  reserve fuel table additional =
      let remaining = sub64 (capacity_of (capacity table)) table.size in
      let grown =
        on_ok (some (expect (checked_add64 table.size additional) >>= raw_capacity))
          (resize fuel table) in
      if ltb remaining additional
      then grown
      else if table.tag && leb remaining table.size
      then resize fuel table (mul64 (capacity table) 2)
      else some (ok table)

  unfoldable pub insert :
      ℕ → Keys K → RawTable K V → K → V → Option (Outcome (Option V × RawTable K V))
  insert fuel keys table k v =
      on_ok (reserve fuel table 1) (λ t. insert_hashed_nocheck fuel keys t (make_hash keys k) k v)

  -- `RawTable::into_iter`: the next `elems_left` elements.
  abbrev pub into_iter : ℕ → List (Option (Entry K V)) → List (Entry K V)
  into_iter elems_left [] = []
  into_iter zero (b ∷ bs) = []
  into_iter (suc n) (none ∷ bs) = into_iter (suc n) bs
  into_iter (suc n) (some e ∷ bs) = e ∷ into_iter n bs

  unfoldable pub insert_all :
      ℕ → Keys K → List (Entry K V) → RawTable K V → Option (Outcome (RawTable K V))
  insert_all fuel keys [] table = some (ok table)
  insert_all fuel keys (e ∷ es) table =
      on_ok (insert_hashed_nocheck fuel keys table e.hash e.key e.val)
        (λ r. insert_all fuel keys es r.1)

  abbrev pub shrink_to : ℕ → Keys K → RawTable K V → ℕ → Option (Outcome (RawTable K V))
  shrink_to fuel keys table raw =
      let smaller = insert_all fuel keys (into_iter table.size table.buckets) (Table.new raw) in
      if capacity table == raw then some (ok table) else smaller

  unfoldable pub shrink_to_fit : ℕ → Keys K → RawTable K V → Option (Outcome (RawTable K V))
  unfolding insert_all
  shrink_to_fit fuel keys table = on_ok (some (raw_capacity table.size)) (shrink_to fuel keys table)
