-- ===== src/Driver/Primitives/Cat/Neighbours.antt =====
-- The order around a ring, which the indices of `spend_all` of
-- crates/chia-sdk-driver/src/primitives/cat.rs walk: from an element on, those behind it and then
-- those before it.
use chia_wallet_sdk.Prelude.{
  suc, ◌+◌, ◌-◌, ◌≡◌, refl, ap, sym, append-nil, true, false, ◌∙◌, List, [], ◌∷◌, ◌++◌, length,
  length-append, ◌==◌, if◌then◌else◌, arith,
}
use chia_wallet_sdk.Driver.Primitives.Cat.{get_or}

module _ {A : Type 0} where
  abbrev pub first_or : A → List A → A
  first_or default [] = default
  first_or default (x ∷ xs) = x

  abbrev pub last_or : A → List A → A
  last_or default [] = default
  last_or default (x ∷ xs) = last_or x xs

  last_or-append : (default y : A) (xs ys : List A) → last_or default (xs ++ y ∷ ys) ≡ last_or y ys
  last_or-append default y [] ys = refl
  last_or-append default y (x ∷ xs) ys = last_or-append x y xs ys

  get_or-last :
      (default x : A) (xs ys : List A) → get_or default (x ∷ xs ++ ys) (length xs) ≡ last_or x xs
  get_or-last default x [] ys = refl
  get_or-last default x (y ∷ xs) ys = get_or-last default y xs ys

  get_or-next :
      (default x y : A) (xs ys : List A) → get_or default (xs ++ x ∷ y ∷ ys) (suc (length xs)) ≡ y
  get_or-next default x y [] ys = refl
  get_or-next default x y (z ∷ xs) ys = get_or-next default x y xs ys

  -- The element before, around the ring.
  pub get_or-prev :
      (s : A) (before rest : List A)
      → get_or s
          (before ++ s ∷ rest)
          (if length before == 0 then length (before ++ s ∷ rest) - 1 else length before - 1)
        ≡ last_or s (rest ++ before)
  get_or-prev s [] rest =
      let at : suc (length rest) - 1 ≡ length rest = omega arith in
      rw (at, append-nil)
        (ap (λ xs. get_or s (s ∷ xs) (length rest)) (sym (append-nil rest))
          ∙ get_or-last s s rest [])
  get_or-prev s (b ∷ before) rest =
      let at : suc (length before) - 1 ≡ length before = omega arith in
      let behind : (suc (length before) == 0) ≡ false = ground arith in
      rw (behind, at) (get_or-last s b before (s ∷ rest) ∙ sym (last_or-append s b rest before))

  get_or-first : (s : A) (xs : List A) → get_or s (xs ++ s ∷ []) 0 ≡ first_or s xs
  get_or-first s [] = refl
  get_or-first s (x ∷ xs) = refl

  -- The element behind, around the ring.
  pub get_or-next_of :
      (s : A) (before rest : List A)
      → get_or s
          (before ++ s ∷ rest)
          (if length before == length (before ++ s ∷ rest) - 1 then 0 else length before + 1)
        ≡ first_or s (rest ++ before)
  get_or-next_of s before [] =
      let at : (length before == length (before ++ s ∷ []) - 1) ≡ true =
        ground (arith, length-append before (s ∷ [])) in
      rw at (get_or-first s before)
  get_or-next_of s before (r ∷ rest) =
      let at : (length before == length (before ++ s ∷ r ∷ rest) - 1) ≡ false =
        ground (arith, length-append before (s ∷ r ∷ rest)) in
      let behind : length before + 1 ≡ suc (length before) = omega arith in
      rw (at, behind) (get_or-next s s r before rest)
