-- ===== src/Tests/HashTests.antt =====
-- collections/hash: runs of the hash map on a table of eight buckets, and the theorems there.
use mathlib.Core.Option
use mathlib.Core.Path.{subst}
use mathlib.Core.Option.{some-injective}
use rust_libstd.Prelude.{
  ℕ, ◌^◌, ◌<◌, ◌≤◌, ◌≡◌, ◌==◌, ◌↔◌, if◌then◌else◌, refl, false, Option, some, none, [], ◌∷◌,
  Outcome, ok, panic, arith, inl,
}
use rust_libstd.Hash.Table
use rust_libstd.Hash.Table.{Keys, make_hash, safe_hash, Entry, RawTable, capacity, head_bucket}
use rust_libstd.Hash.Table.State.{KeyLaws, eq-Matches, IsTable, new-IsTable}
use rust_libstd.Hash.Map.{
  InternalEntry, search_loop, search_hashed, shift_loop, pop_internal, robin_loop, robin_hood,
}
use rust_libstd.Hash.Map.Calls.{get, insert_hashed_nocheck, remove}
use rust_libstd.Hash.Resize.{
  next_power, raw_capacity, capacity_of, ordered_loop, insert_hashed_ordered, move_loop, resize,
  reserve, insert, insert_all, shrink_to_fit,
}
use rust_libstd.Hash.Resize.Policy.{raw_capacity-room}
use rust_libstd.Hash.Resize.Shrink.{Shrunk, shrink_to_fit-Shrunk}
use rust_libstd.Hash.Resize.Grow.{Resized, resize-Resized}
use rust_libstd.Hash.Map.Search.{Found, search_hashed-Found}
use rust_libstd.Hash.Map.Remove.{Removed, remove-Removed}
use rust_libstd.Hash.Map.Laws.{get-insert, get-remove, insert_hashed_nocheck-panic}
use rust_libstd.Hash.Map.Insert.{Inserted, insert_hashed_nocheck-Inserted}

program : Unit {0}
unfolding safe_hash make_hash Table.new search_loop search_hashed shift_loop pop_internal robin_loop
    robin_hood get insert_hashed_nocheck remove
program = tt

resizing : Unit {0}
unfolding next_power raw_capacity capacity_of ordered_loop insert_hashed_ordered move_loop
    head_bucket resize reserve insert insert_all shrink_to_fit
resizing = tt

abbrev map_ok : {A B : Type 0} → (A → B) → Outcome A → Outcome B
map_ok f (ok a) = ok (f a)
map_ok f panic = panic

abbrev keys : Keys ℕ
keys = record { eq = λ a b. a == b; finish = λ n. n }

laws : KeyLaws keys
laws = record { eq_iff = λ a b. (λ h. ground arith, λ h. ground arith) }

abbrev entry : ℕ → ℕ → Entry ℕ ℕ
entry k v = record { hash = make_hash keys k; key = k; val = v }

abbrev one : RawTable ℕ ℕ
one = record {
  buckets = none ∷ none ∷ none ∷ some (entry 3 30) ∷ none ∷ none ∷ none ∷ none ∷ [];
  size = 1;
  tag = false;
}

abbrev three : RawTable ℕ ℕ
three = record {
  buckets =
      none
      ∷ none
      ∷ none
      ∷ some (entry 3 30)
      ∷ some (entry 11 110)
      ∷ some (entry 4 40)
      ∷ none
      ∷ none
      ∷ [];
  size = 3;
  tag = false;
}

-- The element for 4 makes way.
abbrev four : RawTable ℕ ℕ
four = record {
  buckets =
      none
      ∷ none
      ∷ none
      ∷ some (entry 3 30)
      ∷ some (entry 11 110)
      ∷ some (entry 19 190)
      ∷ some (entry 4 40)
      ∷ none
      ∷ [];
  size = 4;
  tag = false;
}

kicks : insert_hashed_nocheck 8 keys three (make_hash keys 19) 19 190 ≡ some (ok (none, four))
unfolding program
kicks = refl

finds : get 8 keys four 4 ≡ some (some 40)
unfolding program
finds = refl

misses : get 8 keys four 12 ≡ some none
unfolding program
misses = refl

shifts : remove 8 keys four 19 ≡ some (some 190, three)
unfolding program
shifts = refl

unreachable :
    insert_hashed_nocheck {V = ℕ} 8 keys (Table.new 0) (make_hash keys 1) 1 10 ≡ some panic
unfolding program
unreachable = refl

-- What a run gives is what the theorem of the insertion speaks of.
kept :
    (t t' : RawTable ℕ ℕ) (k v : ℕ) (old : Option ℕ)
    → IsTable keys t
    → t.size < capacity t
    → capacity t ≤ 8
    → insert_hashed_nocheck 8 keys t (make_hash keys k) k v ≡ some (ok (old, t'))
    → IsTable keys t'
kept t t' k v old inv spare enough run =
    let (old', u, runs, ins) = insert_hashed_nocheck-Inserted keys 8 t k v laws inv spare enough in
    let same : u ≡ t' = cc (runs, run) in subst (IsTable keys) same ins.inv

one-IsTable : IsTable keys one
unfolding program
one-IsTable =
    kept (Table.new 8) one 3 30 none (new-IsTable ℕ keys 8) (omega arith) (omega arith) refl

abbrev two : RawTable ℕ ℕ
two = record {
  buckets = none ∷ none ∷ none ∷ some (entry 3 30) ∷ some (entry 11 110) ∷ none ∷ none ∷ none ∷ [];
  size = 2;
  tag = false;
}

two-IsTable : IsTable keys two
unfolding program
two-IsTable = kept one two 11 110 none one-IsTable (omega arith) (omega arith) refl

three-IsTable : IsTable keys three
unfolding program
three-IsTable = kept two three 4 40 none two-IsTable (omega arith) (omega arith) refl

four-IsTable : IsTable keys four
unfolding program
four-IsTable = kept three four 19 190 none three-IsTable (omega arith) (omega arith) refl

search_hashed-Found_example :
    (r : InternalEntry) × (search_hashed 8 four (make_hash keys 12) (keys.eq 12) ≡ some r)
    × Found keys four 12 r
search_hashed-Found_example =
    search_hashed-Found keys four 12 (keys.eq 12) 8 (eq-Matches keys laws 12) four-IsTable
      (inl (omega arith)) (omega arith)

insert_hashed_nocheck-Inserted_example :
    (old : Option ℕ) × (t' : RawTable ℕ ℕ) × (insert_hashed_nocheck 8 keys three
        (make_hash keys 19)
        19
        190
      ≡ some (ok (old, t')))
    × Inserted keys three 19 190 old t'
insert_hashed_nocheck-Inserted_example =
    insert_hashed_nocheck-Inserted keys 8 three 19 190 laws three-IsTable (omega arith)
      (omega arith)

remove-Removed_example :
    (old : Option ℕ) × (t' : RawTable ℕ ℕ) × (remove 8 keys four 19 ≡ some (old, t'))
    × Removed keys four 19 old t'
remove-Removed_example =
    remove-Removed keys 8 four 19 laws four-IsTable (inl (omega arith)) (omega arith)

get-insert_example :
    (old : Option ℕ) × (t' : RawTable ℕ ℕ) × (insert_hashed_nocheck 8 keys three
        (make_hash keys 19)
        19
        190
      ≡ some (ok (old, t')))
    × (get 8 keys three 19 ≡ some old)
    × ((x : ℕ) → get 8 keys t' x ≡ (if keys.eq 19 x then some (some 190) else get 8 keys three x))
get-insert_example = get-insert keys laws 8 three 19 190 three-IsTable (omega arith) (omega arith)

get-remove_example :
    (old : Option ℕ) × (t' : RawTable ℕ ℕ) × (remove 8 keys four 19 ≡ some (old, t'))
    × (get 8 keys four 19 ≡ some old)
    × ((x : ℕ) → get 8 keys t' x ≡ (if keys.eq 19 x then some none else get 8 keys four x))
get-remove_example = get-remove keys laws 8 four 19 four-IsTable (inl (omega arith)) (omega arith)

insert_hashed_nocheck-panic_example :
    (insert_hashed_nocheck 8 keys four (make_hash keys 5) 5 50 ≡ some panic) ↔ (capacity four ≡ 0)
insert_hashed_nocheck-panic_example =
    insert_hashed_nocheck-panic keys laws 8 four 5 50 four-IsTable (inl (omega arith)) (omega arith)

raw_capacity-room_example :
    (r : ℕ) × (raw_capacity 896 ≡ ok r)
    × (896 ≤ capacity_of r)
    × (capacity_of r < r)
    × (r < 2 ^ 60)
    × ((k : ℕ) × (r ≡ 2 ^ k))
raw_capacity-room_example = raw_capacity-room 896 (omega arith) (omega arith)

-- The tests of the policy and of the growth in map.rs.
policy : (raw_capacity 0 ≡ ok 0) × (raw_capacity 1 ≡ ok 32) × (capacity_of 32 ≡ 29)
unfolding resizing
policy = (refl, refl, refl)

raw_of_four : raw_capacity four.size ≡ ok 32
unfolding resizing
raw_of_four = refl

grows :
    Option.map
      (λ o. map_ok (λ r. capacity {V = ℕ} r.1) o)
      (insert {V = ℕ} 40 keys (Table.new 0) 5 50)
    ≡ some (ok 32)
unfolding program resizing
grows = refl

doubles :
    Option.map (λ o. map_ok (λ t. get 16 keys t 4) o) (resize 16 four 16)
    ≡ some (ok (some (some 40)))
unfolding program resizing
doubles = refl

shrink_to_fit-Shrunk_example :
    (t' : RawTable ℕ ℕ) × (shrink_to_fit 32 keys four ≡ some (ok t'))
    × Shrunk keys laws 32 four t' 32
shrink_to_fit-Shrunk_example =
    shrink_to_fit-Shrunk keys laws 32 four 32 four-IsTable (omega arith) raw_of_four (omega arith)

resize-Resized_example :
    (t' : RawTable ℕ ℕ) × (resize 16 four 16 ≡ some (ok t')) × Resized keys four four-IsTable t' 16
resize-Resized_example =
    resize-Resized keys four four-IsTable 16 16 (inl (omega arith)) (omega arith) refl (omega arith)
      (omega arith)
