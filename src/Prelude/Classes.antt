-- ===== src/Prelude/Classes.antt =====
-- `PartialEq` with a lawful test, as an interface, and membership in a list.
use Prim.Native.Nat.{ℕ}
use mathlib.Core.Path.{◌≡◌, refl, subst}
use mathlib.Core.Logic.{◌↔◌, ◌⊎◌, inl, inr}
use mathlib.Core.Bool.{Bool, true, false, ◌||◌}
use mathlib.Core.List.{List, [], ◌∷◌, ◌++◌}
use native.Mathlib.Omega.{arith}
use chia_wallet_sdk.Prelude.Tests.{==_iff, ◌==◌ as nat_beq}
use chia_wallet_sdk.Prelude.Lists.{All}

pub record Eq {ℓ} (A : Type ℓ) : Type ℓ where
  pub beq : (x y : A) → Bool
  pub beq_iff : (x y : A) → (beq x y ≡ true) ↔ (x ≡ y)

instance abbrev pub nat_eq : Eq ℕ
nat_eq = record { beq = nat_beq; beq_iff = ==_iff }

module _ {ℓ} {A : Type ℓ} ⦃e : Eq A⦄ where
  -- `contains` of a slice or of a set.
  abbrev pub contains : List A → A → Bool
  contains [] item = false
  contains (first ∷ rest) item = e.beq first item || contains rest item

  pub contains-append :
      (xs ys : List A) (a : A) → contains (xs ++ ys) a ≡ (contains xs a || contains ys a)
  contains-append [] ys a = refl
  contains-append (x ∷ xs) ys a = ground (arith, contains-append xs ys a)

  pub contains_cases :
      (x : A) (xs : List A) (a : A) → contains (x ∷ xs) a ≡ true → (x ≡ a) ⊎ (contains xs a ≡ true)
  contains_cases x xs a h = ground (arith, e.beq_iff x a)

  pub contains_head : (x : A) (xs : List A) → contains (x ∷ xs) x ≡ true
  contains_head x xs = ground (arith, e.beq_iff x x)

  pub contains_tail :
      (x : A) (xs : List A) (a : A) → contains xs a ≡ true → contains (x ∷ xs) a ≡ true
  contains_tail x xs a h = ground arith

  pub All-contains {κ} :
      (P : A → Type κ) (xs : List A) (a : A) → All P xs → contains xs a ≡ true → P a
  All-contains P [] a h c = cc
  All-contains P (x ∷ xs) a h c = elim (contains_cases x xs a c) [
    | inl same ↦ subst P same h.0
    | inr later ↦ All-contains P xs a h.1 later
  ]

  pub All-of-contains {κ} :
      (P : A → Type κ) (xs : List A) → ((a : A) → contains xs a ≡ true → P a) → All P xs
  All-of-contains P [] h = tt
  All-of-contains P (x ∷ xs) h =
      (h x (contains_head x xs), All-of-contains P xs (λ a c. h a (contains_tail x xs a c)))
