-- ===== src/Hash/Table.antt =====
-- collections/hash/table.rs: `RawTable` and the operations of its buckets. The arrays of hashes and
-- of pairs are one list; a bucket whose hash is `EMPTY_BUCKET` is `none`. The capacity is a power
-- of two, so `& capacity_mask` is `% capacity`.
use Prim.Native.Nat.{bit_or}
pub mod Walk
pub mod State
pub mod Write
pub mod Gap
pub mod Mask
pub mod Head
use rust_libstd.Prelude.{
  ℕ, zero, suc, ◌+◌, ◌-◌, ◌%◌, ◌^◌, Bool, true, false, leb, ◌==◌, if◌then◌else◌, Option, none, some,
  List, [], ◌∷◌, length, set, get_or, replicate,
}
use rust_libstd.Prelude.Words.{as_u64}

-- `SafeHash::new`, with the highest bit set, and what a hasher gives for a key.
unfoldable pub safe_hash : ℕ → ℕ
safe_hash hash = bit_or (2 ^ 63) (as_u64 hash)

-- `Eq` and `Hash` of a type of keys, with its `BuildHasher`.
pub record Keys (K : Type 0) : Type 0 where
  pub eq : K → K → Bool
  pub finish : K → ℕ

unfoldable pub make_hash : {K : Type 0} → Keys K → K → ℕ
unfolding safe_hash
make_hash keys k = safe_hash (keys.finish k)

pub record Entry (K V : Type 0) : Type 0 where
  pub hash : ℕ
  pub key : K
  pub val : V

-- `tag` is the lowest bit of the pointer `hashes`: a long probe sequence has been seen.
pub record RawTable (K V : Type 0) : Type 0 where
  pub buckets : List (Option (Entry K V))
  pub size : ℕ
  pub tag : Bool

-- Without buckets the pointer is `EMPTY`, whose lowest bit is set.
unfoldable pub new : {K V : Type 0} → ℕ → RawTable K V
new capacity = record { buckets = replicate capacity none; size = 0; tag = capacity == 0 }

-- `Bucket::next` and `Bucket::prev`, of an index below the capacity.
abbrev pub next : ℕ → ℕ → ℕ
next capacity idx = if idx + 1 == capacity then 0 else idx + 1

abbrev pub prev : ℕ → ℕ → ℕ
prev capacity idx = if idx == 0 then capacity - 1 else idx - 1

-- The distance from `ib_index` on to `idx`, around the end.
abbrev pub distance : ℕ → ℕ → ℕ → ℕ
distance capacity ib_index idx =
    if leb ib_index idx then idx - ib_index else idx + capacity - ib_index

-- `FullBucket::displacement`.
abbrev pub displacement : ℕ → ℕ → ℕ → ℕ
displacement capacity idx hash = distance capacity (hash % capacity) idx

module _ {K V : Type 0} where
  abbrev pub capacity : RawTable K V → ℕ
  capacity table = length table.buckets

  abbrev pub peek : RawTable K V → ℕ → Option (Entry K V)
  peek table idx = get_or table.buckets idx none

  abbrev pub put : ℕ → Entry K V → RawTable K V → RawTable K V
  put idx e table = record table { buckets = set table.buckets idx (some e); size = table.size + 1 }

  abbrev pub take : ℕ → RawTable K V → RawTable K V
  take idx table = record table { buckets = set table.buckets idx none; size = table.size - 1 }

  abbrev pub replace : ℕ → Entry K V → RawTable K V → RawTable K V
  replace idx e table = record table { buckets = set table.buckets idx (some e) }

  -- `GapThenFull::shift`: the full bucket goes to the gap before it.
  abbrev pub shift : ℕ → ℕ → Entry K V → RawTable K V → RawTable K V
  shift gap full e table = record table { buckets = set (set table.buckets gap (some e)) full none }

  -- The loop of `Bucket::head_bucket`, to the first bucket that stands at its ideal spot.
  abbrev pub at_head : (ℕ → Option ℕ) → ℕ → ℕ → Option (Entry K V) → Option ℕ
  at_head again c idx none = again (next c idx)
  at_head again c idx (some e) =
      let rest = again (next c idx) in if displacement c idx e.hash == 0 then some idx else rest

  unfoldable pub head_bucket : ℕ → RawTable K V → ℕ → Option ℕ
  head_bucket zero table idx = none
  head_bucket (suc fuel) table idx =
      at_head (head_bucket fuel table) (capacity table) idx (peek table idx)
