-- ===== src/Prelude/IndexMap.antt =====
-- `IndexMap` and `HashMap` with numeric keys (ids, hashes and addresses): an association list in the
-- order of insertion. `insert` on a key that is there replaces the value in its place.
use chia_wallet_sdk.Prelude.{
  ℕ, ◌≡◌, refl, subst₂, inl, inr, Bool, true, false, Option, none, some, List, [], ◌∷◌, map, arith,
  ◌==◌, ==_iff, if◌then◌else◌, Bool-cases,
}

abbrev pub IndexMap {ℓ} : Type ℓ → Type ℓ
IndexMap V = List (ℕ × V)

-- The first of two optional values that is there (`Option::or`).
abbrev pub or_else {ℓ} : {A : Type ℓ} → Option A → Option A → Option A
or_else (some a) o = some a
or_else none o = o

module _ {ℓ} {V : Type ℓ} where
  unfoldable pub lookup : ℕ → IndexMap V → Option V
  lookup key [] = none
  lookup key ((other, value) ∷ entries) = if other == key then some value else lookup key entries

  unfoldable pub insert : ℕ → V → IndexMap V → IndexMap V
  insert key value [] = (key, value) ∷ []
  insert key value ((other, old) ∷ entries) =
      if other == key then (key, value) ∷ entries else (other, old) ∷ insert key value entries

  unfoldable pub extend : IndexMap V → IndexMap V → IndexMap V
  extend entries [] = entries
  extend entries ((key, value) ∷ n) = extend (insert key value entries) n

  unfoldable pub contains_key : ℕ → IndexMap V → Bool
  unfolding lookup
  contains_key key entries = elim (lookup key entries) [ none ↦ false | some _ ↦ true ]

  unfoldable pub remove : ℕ → IndexMap V → IndexMap V
  remove key [] = []
  remove key ((other, old) ∷ entries) =
      if other == key then entries else (other, old) ∷ remove key entries

  abbrev pub keys : IndexMap V → List ℕ
  keys = map (λ e. e.0)

  abbrev pub values : IndexMap V → List V
  values = map (λ e. e.1)

  -- No key occurs twice, as in every map that is built by insertions.
  abbrev pub IsMap : IndexMap V → Type ℓ
  IsMap [] = Unit
  IsMap ((key, value) ∷ entries) = (lookup key entries ≡ none) × IsMap entries

  pub lookup-insert :
      (key other : ℕ) (value : V) (entries : IndexMap V)
      → lookup other (insert key value entries)
        ≡ (if key == other then some value else lookup other entries)
  unfolding lookup insert
  lookup-insert key other value [] = refl
  lookup-insert key other value ((i, old) ∷ entries) =
      ground (arith, lookup-insert key other value entries)

  pub lookup-insert_self :
      (key : ℕ) (value : V) (entries : IndexMap V)
      → lookup key (insert key value entries) ≡ some value
  lookup-insert_self key value entries = ground (arith, lookup-insert key key value entries)

  pub insert-IsMap :
      (key : ℕ) (value : V) (entries : IndexMap V)
      → IsMap entries
      → IsMap (insert key value entries)
  unfolding lookup insert
  insert-IsMap key value [] h = (refl, tt)
  insert-IsMap key value ((i, old) ∷ entries) h =
      ground (arith, insert-IsMap key value entries h.1, lookup-insert key i value entries)

  pub lookup-extend :
      (key : ℕ) (entries n : IndexMap V)
      → IsMap n
      → lookup key (extend entries n) ≡ or_else (lookup key n) (lookup key entries)
  unfolding lookup extend
  lookup-extend key entries [] h = refl
  lookup-extend key entries ((other, value) ∷ n) h = ground (
    arith,
    lookup-extend key (insert other value entries) n h.1,
    lookup-insert other key value entries,
  )

  pub extend-IsMap : (entries n : IndexMap V) → IsMap entries → IsMap (extend entries n)
  unfolding extend
  extend-IsMap entries [] h = h
  extend-IsMap entries ((key, value) ∷ n) h =
      extend-IsMap (insert key value entries) n (insert-IsMap key value entries h)

  pub contains_key_iff :
      (key : ℕ) (entries : IndexMap V)
      → contains_key key entries ≡ true
      → (value : V) × (lookup key entries ≡ some value)
  unfolding contains_key
  contains_key_iff key entries h = ground arith

  pub lookup-remove :
      (key other : ℕ) (entries : IndexMap V)
      → IsMap entries
      → lookup other (remove key entries) ≡ (if key == other then none else lookup other entries)
  unfolding lookup remove
  lookup-remove key other [] h = ground arith
  lookup-remove key other ((i, old) ∷ entries) h =
      ground (arith, lookup-remove key other entries h.1)

  pub remove-IsMap : (key : ℕ) (entries : IndexMap V) → IsMap entries → IsMap (remove key entries)
  unfolding lookup remove
  remove-IsMap key [] h = tt
  remove-IsMap key ((i, old) ∷ entries) h =
      ground (arith, remove-IsMap key entries h.1, lookup-remove key i entries h.1)

  -- A property of every entry of a map, by key and value.
  abbrev pub Entries {κ} : (ℕ → V → Type κ) → IndexMap V → Type κ
  Entries P [] = Unit
  Entries P ((key, value) ∷ entries) = P key value × Entries P entries

  pub Entries-insert {κ} :
      (P : ℕ → V → Type κ) (key : ℕ) (value : V) (entries : IndexMap V)
      → P key value
      → Entries P entries
      → Entries P (insert key value entries)
  unfolding insert
  Entries-insert P key value [] p h = (p, tt)
  Entries-insert P key value ((i, old) ∷ entries) p h = elim (Bool-cases (i == key)) [
    | inl same ↦ rw same (p, h.1)
    | inr other ↦ rw other (h.0, Entries-insert P key value entries p h.1)
  ]

  pub Entries-extend {κ} :
      (P : ℕ → V → Type κ) (entries n : IndexMap V)
      → Entries P entries
      → Entries P n
      → Entries P (extend entries n)
  unfolding extend
  Entries-extend P entries [] h g = h
  Entries-extend P entries ((key, value) ∷ n) h g =
      Entries-extend P (insert key value entries) n (Entries-insert P key value entries g.0 h) g.1

  pub Entries-lookup {κ} :
      (P : ℕ → V → Type κ) (key : ℕ) (value : V) (entries : IndexMap V)
      → Entries P entries
      → lookup key entries ≡ some value
      → P key value
  unfolding lookup
  Entries-lookup P key value [] h e = cc
  Entries-lookup P key value ((i, old) ∷ entries) h e = elim (Bool-cases (i == key)) [
    | inl same ↦ subst₂ P ((==_iff i key).0 same) (found same) h.0
    | inr other ↦ Entries-lookup P key value entries h.1 (ground arith)
  ]
    where
      found : (i == key) ≡ true → old ≡ value
      found same = ground arith

  pub Entries-imp {κ μ} :
      (P : ℕ → V → Type κ) (Q : ℕ → V → Type μ)
      → ((key : ℕ) (value : V) → P key value → Q key value)
      → (entries : IndexMap V) → Entries P entries
      → Entries Q entries
  Entries-imp P Q f [] h = tt
  Entries-imp P Q f ((key, value) ∷ entries) h = (f key value h.0, Entries-imp P Q f entries h.1)

  pub Entries-of-lookup {κ} :
      (P : ℕ → V → Type κ) (entries : IndexMap V)
      → IsMap entries
      → ((key : ℕ) (value : V) → lookup key entries ≡ some value → P key value)
      → Entries P entries
  unfolding lookup
  Entries-of-lookup P [] h f = tt
  Entries-of-lookup P ((key, value) ∷ entries) h f = (
    f key value (ground arith),
    Entries-of-lookup P entries h.1 (λ other old e. f other old (later other old e)),
  )
    where
      later :
          (other : ℕ) (old : V)
          → lookup other entries ≡ some old
          → (if key == other then some value else lookup other entries) ≡ some old
      later other old e = ground (arith, h.0)

  -- The map that extends another has its keys.
  pub contains_key-extend_right :
      (key : ℕ) (entries n : IndexMap V)
      → IsMap n
      → contains_key key n ≡ true
      → contains_key key (extend entries n) ≡ true
  unfolding contains_key
  contains_key-extend_right key entries n h c = ground (arith, lookup-extend key entries n h)

  pub contains_key-insert :
      (key id : ℕ) (value : V) (entries : IndexMap V)
      → contains_key id entries ≡ true
      → contains_key id (insert key value entries) ≡ true
  unfolding contains_key
  contains_key-insert key id value entries h = ground (arith, lookup-insert key id value entries)

  pub contains_key-extend_left :
      (key : ℕ) (entries n : IndexMap V)
      → contains_key key entries ≡ true
      → contains_key key (extend entries n) ≡ true
  unfolding extend
  contains_key-extend_left key entries [] h = h
  contains_key-extend_left key entries ((other, value) ∷ n) h =
      contains_key-extend_left key (insert other value entries) n
        (contains_key-insert other key value entries h)
