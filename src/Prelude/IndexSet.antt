-- ===== src/Prelude/IndexSet.antt =====
-- `IndexSet`: a list in the order of insertion in which nothing occurs twice.
use chia_wallet_sdk.Prelude.{
  suc, ◌+◌, ◌≤◌, ◌≡◌, refl, sym, ◌∙◌, inl, inr, false, ◌||◌, List, [], ◌∷◌, ◌++◌, arith,
  if◌then◌else◌, length, length-append, Eq, contains, contains-append, Bool-cases, All, All-append,
  append-nil, append_assoc, sym, ◌∙◌,
}

module _ {ℓ} {A : Type ℓ} ⦃e : Eq A⦄ where
  unfoldable pub insert : A → List A → List A
  insert a xs = if contains xs a then xs else xs ++ a ∷ []

  unfoldable pub extend : List A → List A → List A
  extend xs [] = xs
  extend xs (y ∷ ys) = extend (insert y xs) ys

  -- `iter().collect::<IndexSet<_>>()`.
  unfoldable pub collect : List A → List A
  unfolding extend insert
  collect ys = extend [] ys

  -- Nothing occurs twice.
  abbrev pub IsNodup : List A → Type 0
  IsNodup [] = Unit
  IsNodup (x ∷ xs) = (contains xs x ≡ false) × IsNodup xs

  pub contains-insert :
      (a b : A) (xs : List A) → contains (insert a xs) b ≡ (contains xs b || e.beq a b)
  unfolding insert
  contains-insert a b xs = ground (arith, contains-append xs (a ∷ []) b, e.beq_iff a b)

  pub contains-extend :
      (xs ys : List A) (b : A) → contains (extend xs ys) b ≡ (contains xs b || contains ys b)
  unfolding extend
  contains-extend xs [] b = ground arith
  contains-extend xs (y ∷ ys) b =
      ground (arith, contains-extend (insert y xs) ys b, contains-insert y b xs)

  pub contains-collect : (ys : List A) (b : A) → contains (collect ys) b ≡ contains ys b
  unfolding collect
  contains-collect ys b = contains-extend [] ys b

  pub length-insert-le : (a : A) (xs : List A) → length (insert a xs) ≤ suc (length xs)
  unfolding insert
  length-insert-le a xs = ground (arith, length-append xs (a ∷ []))

  pub length-extend-le : (xs ys : List A) → length (extend xs ys) ≤ length xs + length ys
  unfolding extend
  length-extend-le xs [] = omega arith
  length-extend-le xs (y ∷ ys) =
      omega (arith, length-extend-le (insert y xs) ys, length-insert-le y xs)

  IsNodup-append :
      (xs : List A) (a : A) → IsNodup xs → contains xs a ≡ false → IsNodup (xs ++ a ∷ [])
  IsNodup-append [] a n h = (refl, tt)
  IsNodup-append (x ∷ xs) a n h =
      ground (
        arith,
        contains-append xs (a ∷ []) x,
        IsNodup-append xs a n.1,
        e.beq_iff x a,
        e.beq_iff a x,
      )

  pub insert-IsNodup : (a : A) (xs : List A) → IsNodup xs → IsNodup (insert a xs)
  unfolding insert
  insert-IsNodup a xs n = ground (arith, IsNodup-append xs a n)

  pub extend-IsNodup : (xs ys : List A) → IsNodup xs → IsNodup (extend xs ys)
  unfolding extend
  extend-IsNodup xs [] n = n
  extend-IsNodup xs (y ∷ ys) n = extend-IsNodup (insert y xs) ys (insert-IsNodup y xs n)

  pub insert-All {κ} : (P : A → Type κ) (a : A) (xs : List A) → P a → All P xs → All P (insert a xs)
  unfolding insert
  insert-All P a xs p h = elim (Bool-cases (contains xs a)) [
    | inl old ↦ rw old h
    | inr new ↦ rw new (All-append P xs (a ∷ []) h (p, tt))
  ]

  -- `shift_remove`.
  unfoldable pub remove : A → List A → List A
  remove a [] = []
  remove a (x ∷ xs) = if e.beq x a then xs else x ∷ remove a xs

  pub remove-append_last :
      (a : A) (xs : List A) → contains xs a ≡ false → remove a (xs ++ a ∷ []) ≡ xs
  unfolding remove
  remove-append_last a [] h = ground (arith, e.beq_iff a a)
  remove-append_last a (x ∷ xs) h = ground (arith, remove-append_last a xs)

  -- Items that are new are put at the end.
  extend_new :
      (xs ys : List A) → All (λ y. contains xs y ≡ false) ys → IsNodup ys → extend xs ys ≡ xs ++ ys
  unfolding extend insert
  extend_new xs [] fresh n = sym (append-nil xs)
  extend_new xs (y ∷ ys) fresh n =
      rw (fresh.0, extend)
        (extend_new (xs ++ y ∷ []) ys (grown ys fresh.1 n.0) n.1 ∙ append_assoc xs (y ∷ []) ys)
    where
      grown :
          (zs : List A)
          → All (λ z. contains xs z ≡ false) zs
          → contains zs y ≡ false
          → All (λ z. contains (xs ++ y ∷ []) z ≡ false) zs
      grown [] f c = tt
      grown (z ∷ zs) f c = (
        ground (arith, contains-append xs (y ∷ []) z, f.0, c, e.beq_iff y z, e.beq_iff z y),
        grown zs f.1 (ground arith),
      )

  -- A list without repetition is the set that is collected from it.
  pub collect_new : (ys : List A) → IsNodup ys → collect ys ≡ ys
  unfolding collect
  collect_new ys n = extend_new [] ys (fresh ys) n
    where
      fresh : (zs : List A) → All (λ z. contains [] z ≡ false) zs
      fresh [] = tt
      fresh (z ∷ zs) = (refl, fresh zs)
