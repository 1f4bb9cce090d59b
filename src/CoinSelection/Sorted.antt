-- ===== src/CoinSelection/Sorted.antt =====
-- The sorted coins of `select_coins` in crates/chia-sdk-utils/src/coin_selection.rs, and those of them
-- below the amount.
use chia_wallet_sdk.Prelude.{
  ℕ, suc, ◌≤◌, ◌<◌, ◌≡◌, refl, true, false, List, [], ◌∷◌, arith, ltb, leb, ltb→lt, leb→le, length,
  contains, Bool-cases, inl, inr, ◌⊎◌, All, All-imp, contains_head, contains_tail, contains_cases,
  select,
}
use native.Mathlib.Nat.{le_trans, le_refl}
use chia_wallet_sdk.Prelude.IndexSet
use chia_wallet_sdk.Prelude.IndexSet.{IsNodup}
use chia_wallet_sdk.Protocol.{Coin, coin_eq}
use chia_wallet_sdk.CoinSelection.Select.{
  total, insert_descending, sort_descending, smaller_coins, smaller_sum,
}
use chia_wallet_sdk.CoinSelection.Totals.{IsSelection}
use chia_wallet_sdk.CoinSelection.Largest.{All-contains}

-- Descending amounts.
abbrev pub IsDescending : List Coin → Type 0
IsDescending [] = Unit
IsDescending (c ∷ cs) = All (λ d. d.amount ≤ c.amount) cs × IsDescending cs

insert_descending-All :
    (n : ℕ) (c : Coin) (cs : List Coin)
    → c.amount ≤ n
    → All (λ d. d.amount ≤ n) cs
    → All (λ d. d.amount ≤ n) (insert_descending c cs)
unfolding insert_descending
insert_descending-All n c [] h a = (h, tt)
insert_descending-All n c (d ∷ ds) h a = ground (arith, insert_descending-All n c ds h a.1)

insert_descending-IsDescending :
    (c : Coin) (cs : List Coin) → IsDescending cs → IsDescending (insert_descending c cs)
unfolding insert_descending
insert_descending-IsDescending c [] s = (tt, tt)
insert_descending-IsDescending c (d ∷ ds) s = elim (Bool-cases (leb d.amount c.amount)) [
  | inl le ↦
      let first : d.amount ≤ c.amount = leb→le _ _ le in
      rw le ((first, All-imp (λ f g. le_trans g first) ds s.0), s)
  | inr gt ↦ rw gt (
    insert_descending-All d.amount c ds (ground arith) s.0,
    insert_descending-IsDescending c ds s.1,
  )
]

pub sort_descending-IsDescending : (cs : List Coin) → IsDescending (sort_descending cs)
unfolding sort_descending
sort_descending-IsDescending [] = tt
sort_descending-IsDescending (c ∷ cs) =
    insert_descending-IsDescending c (sort_descending cs) (sort_descending-IsDescending cs)

-- Where all coins are below the amount, so is none left out of the smaller ones.
smaller_sum-total :
    (cs : List Coin) (n amount : ℕ)
    → n < amount
    → All (λ d. d.amount ≤ n) cs
    → smaller_sum cs amount ≡ total cs
unfolding total
smaller_sum-total [] n amount lt a = refl
smaller_sum-total (c ∷ cs) n amount lt a = ground (arith, smaller_sum-total cs n amount lt a.1)

smaller-le : (cs : List Coin) (amount : ℕ) → smaller_sum cs amount ≤ total cs
unfolding total
smaller-le [] amount = omega arith
smaller-le (c ∷ cs) amount = ground (arith, smaller-le cs amount)

-- The smaller coins, as a list, are distinct coins of the list.
smaller_among :
    (cs : List Coin) (amount : ℕ) (d : Coin)
    → contains (select (λ c. ltb c.amount amount) cs) d ≡ true
    → contains cs d ≡ true
smaller_among [] amount d h = h
smaller_among (c ∷ cs) amount d h = elim (Bool-cases (ltb c.amount amount)) [
  | inl small ↦ keep (smaller_among cs amount d) (split (rw small at h))
  | inr big ↦ contains_tail c cs d (smaller_among cs amount d (rw big at h))
]
  where
    split :
        contains (c ∷ select (λ c. ltb c.amount amount) cs) d ≡ true
        → (c ≡ d) ⊎ (contains (select (λ c. ltb c.amount amount) cs) d ≡ true)
    split = contains_cases c (select (λ c. ltb c.amount amount) cs) d

    keep :
        (contains (select (λ c. ltb c.amount amount) cs) d ≡ true → contains cs d ≡ true)
        → (c ≡ d) ⊎ (contains (select (λ c. ltb c.amount amount) cs) d ≡ true)
        → contains (c ∷ cs) d ≡ true
    keep among (inl same) = rw (← same) (contains_head c cs)
    keep among (inr later) = contains_tail c cs d (among later)

smaller-IsNodup :
    (cs : List Coin) (amount : ℕ) → IsNodup cs → IsNodup (select (λ c. ltb c.amount amount) cs)
smaller-IsNodup [] amount n = tt
smaller-IsNodup (c ∷ cs) amount n = elim (Bool-cases (ltb c.amount amount)) [
  | inl small ↦ rw small (absent, smaller-IsNodup cs amount n.1)
  | inr big ↦ rw big (smaller-IsNodup cs amount n.1)
]
  where
    absent : contains (select (λ c. ltb c.amount amount) cs) c ≡ false
    absent = elim (Bool-cases (contains (select (λ c. ltb c.amount amount) cs) c)) [
      | inl there ↦
          let old : contains cs c ≡ true = smaller_among cs amount c there in
          let new : contains cs c ≡ false = n.0 in cc
      | inr gone ↦ gone
    ]

length-smaller-le :
    (cs : List Coin) (amount : ℕ) → length (select (λ c. ltb c.amount amount) cs) ≤ length cs
length-smaller-le [] amount = omega arith
length-smaller-le (c ∷ cs) amount = ground (arith, length-smaller-le cs amount)

length-insert_descending :
    (c : Coin) (cs : List Coin) → length (insert_descending c cs) ≡ suc (length cs)
unfolding insert_descending
length-insert_descending c [] = refl
length-insert_descending c (d ∷ ds) = ground (arith, length-insert_descending c ds)

pub length-sort_descending : (cs : List Coin) → length (sort_descending cs) ≡ length cs
unfolding sort_descending
length-sort_descending [] = refl
length-sort_descending (c ∷ cs) =
    omega (arith, length-insert_descending c (sort_descending cs), length-sort_descending cs)

-- The smaller coins of distinct coins are a selection for their sum.
pub smaller-IsSelection :
    (cs : List Coin) (amount : ℕ)
    → IsNodup cs
    → IsSelection cs (smaller_sum cs amount) (length cs) (smaller_coins cs amount)
smaller-IsSelection cs amount n =
    let smaller = select (λ c. ltb c.amount amount) cs in
    rw (IndexSet.collect_new smaller (smaller-IsNodup cs amount n)) (record {
      enough = omega arith;
      distinct = smaller-IsNodup cs amount n;
      among = All-contains cs smaller (smaller_among cs amount);
      few = length-smaller-le cs amount;
    })

-- Among coins in descending order the first is large enough where the smaller ones are not.
pub first_is_above :
    (c : Coin) (cs : List Coin) (amount : ℕ)
    → IsDescending (c ∷ cs)
    → amount ≤ total (c ∷ cs)
    → smaller_sum (c ∷ cs) amount < amount
    → amount ≤ c.amount
first_is_above c cs amount s le short = elim (Bool-cases (ltb c.amount amount)) [
  | inl small ↦
      let all =
        smaller_sum-total (c ∷ cs) c.amount amount (ltb→lt _ _ small) (le_refl c.amount, s.0) in
      absurd (omega (arith, all))
  | inr big ↦ ground (arith, big)
]
