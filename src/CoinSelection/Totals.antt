-- ===== src/CoinSelection/Totals.antt =====
-- Sums of coins, and what a selection is, for crates/chia-sdk-utils/src/coin_selection.rs.
use chia_wallet_sdk.Prelude.{
  ℕ, ◌+◌, ◌≤◌, ◌≡◌, refl, ◌∙◌, Bool, true, false, ◌||◌, List, [], ◌∷◌, ◌++◌, arith, leb, length,
  contains, length-append, Bool-cases, inl, inr, All,
}
use chia_wallet_sdk.Prelude.IndexSet
use chia_wallet_sdk.Prelude.IndexSet.{IsNodup}
use chia_wallet_sdk.Protocol.{Coin, coin_eq}
use chia_wallet_sdk.CoinSelection.Select.{total, insert_descending, sort_descending}

-- Different coins of the list that together reach the amount, at most `most` of them.
pub record IsSelection (coins : List Coin) (amount most : ℕ) (selected : List Coin) : Type 0 where
  pub enough : amount ≤ total selected
  pub distinct : IsNodup selected
  pub among : All (λ c. contains coins c ≡ true) selected
  pub few : length selected ≤ most

pub total-append : (xs ys : List Coin) → total (xs ++ ys) ≡ total xs + total ys
unfolding total
total-append [] ys = omega arith
total-append (x ∷ xs) ys = omega (arith, total-append xs ys)

-- A new coin adds its amount and one to the length.
pub insert_new :
    (c : Coin) (xs : List Coin) → contains xs c ≡ false → IndexSet.insert c xs ≡ xs ++ c ∷ []
unfolding IndexSet.insert
insert_new c xs h = rw h

pub total-insert_new :
    (c : Coin) (xs : List Coin)
    → contains xs c ≡ false
    → (total (IndexSet.insert c xs) ≡ total xs + c.amount)
      × (length (IndexSet.insert c xs) ≡ length xs + 1)
unfolding total
total-insert_new c xs h =
    rw (insert_new c xs h)
      (omega (arith, total-append xs (c ∷ [])), omega (arith, length-append xs (c ∷ [])))

-- A selection of one coin that is large enough.
pub one_coin :
    (coins : List Coin) (amount most : ℕ) (c : Coin)
    → contains coins c ≡ true
    → amount ≤ c.amount
    → 1 ≤ most
    → IsSelection coins amount most (c ∷ [])
unfolding total
one_coin coins amount most c has le one = record {
  enough = omega arith;
  distinct = (refl, tt);
  among = (has, tt);
  few = one;
}

-- The sort keeps the sum, the coins and their distinctness.
total-insert_descending :
    (c : Coin) (cs : List Coin) → total (insert_descending c cs) ≡ c.amount + total cs
unfolding total insert_descending
total-insert_descending c [] = refl
total-insert_descending c (d ∷ ds) = ground (arith, total-insert_descending c ds)

pub total-sort_descending : (cs : List Coin) → total (sort_descending cs) ≡ total cs
unfolding total sort_descending
total-sort_descending [] = refl
total-sort_descending (c ∷ cs) =
    omega (arith, total-insert_descending c (sort_descending cs), total-sort_descending cs)

contains-insert_descending :
    (c a : Coin) (cs : List Coin)
    → contains (insert_descending c cs) a ≡ (coin_eq.beq c a || contains cs a)
unfolding insert_descending
contains-insert_descending c a [] = refl
contains-insert_descending c a (d ∷ ds) = elim (Bool-cases (leb d.amount c.amount)) [
  | inl before ↦ rw before
  | inr after ↦ rw after (shuffle (contains-insert_descending c a ds))
]
  where
    shuffle :
        contains (insert_descending c ds) a ≡ (coin_eq.beq c a || contains ds a)
        → (coin_eq.beq d a || contains (insert_descending c ds) a)
          ≡ (coin_eq.beq c a || (coin_eq.beq d a || contains ds a))
    shuffle e = rw e (swap_or (coin_eq.beq d a) (coin_eq.beq c a) (contains ds a))
      where
        swap_or : (p q r : Bool) → (p || (q || r)) ≡ (q || (p || r))
        swap_or p q r = ground arith

pub contains-sort_descending :
    (cs : List Coin) (a : Coin) → contains (sort_descending cs) a ≡ contains cs a
unfolding sort_descending
contains-sort_descending [] a = refl
contains-sort_descending (c ∷ cs) a =
    contains-insert_descending c a (sort_descending cs) ∙ (rw (contains-sort_descending cs a))

insert_descending-IsNodup :
    (c : Coin) (cs : List Coin)
    → contains cs c ≡ false
    → IsNodup cs
    → IsNodup (insert_descending c cs)
unfolding insert_descending
insert_descending-IsNodup c [] h n = (refl, tt)
insert_descending-IsNodup c (d ∷ ds) h n = elim (Bool-cases (leb d.amount c.amount)) [
  | inl before ↦ rw before (h, n)
  | inr after ↦ rw after (fresh, insert_descending-IsNodup c ds (or_false _ _ h).1 n.1)
]
  where
    or_false : (p q : Bool) → (p || q) ≡ false → (p ≡ false) × (q ≡ false)
    or_false p q e = ground arith

    fresh : contains (insert_descending c ds) d ≡ false
    fresh = rw (contains-insert_descending c d ds) (ground (arith, h, n.0))

pub sort_descending-IsNodup : (cs : List Coin) → IsNodup cs → IsNodup (sort_descending cs)
unfolding sort_descending
sort_descending-IsNodup [] n = tt
sort_descending-IsNodup (c ∷ cs) n =
    insert_descending-IsNodup c (sort_descending cs) (contains-sort_descending cs c ∙ n.0)
      (sort_descending-IsNodup cs n.1)
