-- ===== src/Hash/Resize/Listing.antt =====
-- collections/hash/table.rs: the elements of a table as the list that `into_iter` goes through.
use mathlib.Core.Option.{some-injective}
use rust_libstd.Prelude.{
  ℕ, zero, suc, ◌≡◌, ◌⊎◌, ◌↔◌, refl, sym, ◌∙◌, ap, Option, none, some, List, [], ◌∷◌, length,
  get_or, inl, inr, arith,
}
use rust_libstd.Hash.Table.{Entry}
use rust_libstd.Hash.Table.State.{full_count}
use rust_libstd.Hash.Resize.{into_iter}

module _ {K V : Type 0} where
  abbrev pub elements : List (Option (Entry K V)) → List (Entry K V)
  elements [] = []
  elements (none ∷ bs) = elements bs
  elements (some e ∷ bs) = e ∷ elements bs

  abbrev pub Listed : List (Entry K V) → K → V → Type 0
  Listed [] x u = ⊥
  Listed (e ∷ es) x u = ((e.key ≡ x) × (e.val ≡ u)) ⊎ Listed es x u

  abbrev pub Keyed : List (Entry K V) → K → Type 0
  Keyed [] x = ⊥
  Keyed (e ∷ es) x = (e.key ≡ x) ⊎ Keyed es x

  abbrev pub Distinct : List (Entry K V) → Type 0
  Distinct [] = Unit {0}
  Distinct (e ∷ es) = (¬ Keyed es e.key) × Distinct es

  pub none-left : (bs : List (Option (Entry K V))) → full_count bs ≡ 0 → elements bs ≡ []
  none-left [] h = refl
  none-left (none ∷ bs) h = none-left bs h
  none-left (some e ∷ bs) h = absurd (omega (arith, h))

  pub into_iter-elements :
      (n : ℕ) (bs : List (Option (Entry K V))) → n ≡ full_count bs → into_iter n bs ≡ elements bs
  into_iter-elements n [] h = refl
  into_iter-elements zero (b ∷ bs) h = sym (none-left (b ∷ bs) (sym h))
  into_iter-elements (suc n) (none ∷ bs) h = into_iter-elements (suc n) bs h
  into_iter-elements (suc n) (some e ∷ bs) h =
      ap (λ es. e ∷ es) (into_iter-elements n bs (omega (arith, h)))

  pub length-elements : (bs : List (Option (Entry K V))) → length (elements bs) ≡ full_count bs
  length-elements [] = refl
  length-elements (none ∷ bs) = length-elements bs
  length-elements (some e ∷ bs) = ap suc (length-elements bs)

  -- An element of a list of buckets.
  abbrev pub At : List (Option (Entry K V)) → Entry K V → Type 0
  At bs e = (i : ℕ) × (get_or bs i none ≡ some e)

  pub Listed-Keyed : (es : List (Entry K V)) (x : K) (u : V) → Listed es x u → Keyed es x
  Listed-Keyed [] x u h = h
  Listed-Keyed (e ∷ es) x u (inl (key, val)) = inl key
  Listed-Keyed (e ∷ es) x u (inr h) = inr (Listed-Keyed es x u h)

  pub Keyed-elements :
      (bs : List (Option (Entry K V))) (x : K)
      → Keyed (elements bs) x
      → (e : Entry K V) × At bs e × (e.key ≡ x)
  Keyed-elements [] x h = absurd h
  Keyed-elements (none ∷ bs) x h =
      let (e, (i, at), key) = Keyed-elements bs x h in (e, (suc i, at), key)
  Keyed-elements (some e ∷ bs) x (inl key) = (e, (0, refl), key)
  Keyed-elements (some e ∷ bs) x (inr h) =
      let (e', (i, at), key) = Keyed-elements bs x h in (e', (suc i, at), key)

  Listed-to :
      (bs : List (Option (Entry K V))) (x : K) (u : V)
      → Listed (elements bs) x u
      → (e : Entry K V) × At bs e × (e.key ≡ x) × (e.val ≡ u)
  Listed-to [] x u h = absurd h
  Listed-to (none ∷ bs) x u h =
      let (e, (i, at), key, val) = Listed-to bs x u h in (e, (suc i, at), key, val)
  Listed-to (some e ∷ bs) x u (inl (key, val)) = (e, (0, refl), key, val)
  Listed-to (some e ∷ bs) x u (inr h) =
      let (e', (i, at), key, val) = Listed-to bs x u h in (e', (suc i, at), key, val)

  Listed-from :
      (bs : List (Option (Entry K V))) (x : K) (u : V)
      → ((e : Entry K V) × At bs e × (e.key ≡ x) × (e.val ≡ u))
      → Listed (elements bs) x u
  Listed-from [] x u (e, (i, at), key, val) = absurd (cc at)
  Listed-from (none ∷ bs) x u (e, (zero, at), key, val) = absurd (cc at)
  Listed-from (none ∷ bs) x u (e, (suc i, at), key, val) = Listed-from bs x u (e, (i, at), key, val)
  Listed-from (some e ∷ bs) x u (e', (zero, at), key, val) =
      let same : e ≡ e' = some-injective e e' at in
      inl (ap (λ y. y.key) same ∙ key, ap (λ y. y.val) same ∙ val)
  Listed-from (some e ∷ bs) x u (e', (suc i, at), key, val) =
      inr (Listed-from bs x u (e', (i, at), key, val))

  pub Listed-elements :
      (bs : List (Option (Entry K V))) (x : K) (u : V)
      → Listed (elements bs) x u ↔ ((e : Entry K V) × At bs e × (e.key ≡ x) × (e.val ≡ u))
  Listed-elements bs x u = (Listed-to bs x u, Listed-from bs x u)

  pub Distinct-elements :
      (bs : List (Option (Entry K V)))
      → ((i j : ℕ) (e e' : Entry K V)
          → get_or bs i none ≡ some e
          → get_or bs j none ≡ some e'
          → e.key ≡ e'.key
          → i ≡ j)
      → Distinct (elements bs)
  Distinct-elements [] unique = tt
  Distinct-elements (none ∷ bs) unique =
      Distinct-elements bs
        (λ i j e e' h h' same. omega (arith, unique (suc i) (suc j) e e' h h' same))
  Distinct-elements (some e ∷ bs) unique = (
    λ keyed.
        let (e', (i, at), key) = Keyed-elements bs e.key keyed in
        omega (arith, unique 0 (suc i) e e' refl at (sym key)),
    Distinct-elements bs (λ i j a b h h' same. omega (arith, unique (suc i) (suc j) a b h h' same)),
  )
