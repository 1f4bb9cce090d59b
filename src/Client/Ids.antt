-- ===== src/Client/Ids.antt =====
-- The ids that crates/chia-sdk-client/src/request_map.rs gives to requests.
use chia_wallet_sdk.Prelude.{
  ℕ, zero, suc, ◌+◌, ◌-◌, ◌≤◌, ◌<◌, ◌≡◌, refl, Bool, true, false, none, some, [], ◌∷◌, arith,
  length, ◌==◌, Option-cases, Bool-cases, inl, inr,
}
use chia_wallet_sdk.Prelude.IndexMap
use chia_wallet_sdk.Prelude.IndexMap.{
  IndexMap, lookup, contains_key, IsMap, lookup-insert, lookup-remove, insert-IsMap, remove-IsMap,
}
use chia_wallet_sdk.Client.RequestMap.{
  RequestMap, Sender, u16_max, find_free, retain_open, inserted, insert, remove,
}

-- Ids are unique, and each waiting request has one of the permits.
pub record IsWf (m : RequestMap) : Type 0 where
  pub unique : IsMap m.items
  pub held : m.permits + length m.items ≤ u16_max

length-remove :
    (id : ℕ) (items : IndexMap Sender)
    → contains_key id items ≡ true
    → length (IndexMap.remove id items) + 1 ≡ length items
unfolding contains_key lookup IndexMap.remove
length-remove id [] h = cc
length-remove id ((other, s) ∷ items) h = ground (arith, length-remove id items)

length-insert :
    (id : ℕ) (sender : Sender) (items : IndexMap Sender)
    → contains_key id items ≡ false
    → length (IndexMap.insert id sender items) ≡ length items + 1
unfolding contains_key lookup IndexMap.insert
length-insert id sender [] h = refl
length-insert id sender ((other, s) ∷ items) h = ground (arith, length-insert id sender items)

contains_key-remove :
    (id other : ℕ) (items : IndexMap Sender)
    → (id == other) ≡ false
    → contains_key other (IndexMap.remove id items) ≡ contains_key other items
unfolding contains_key lookup IndexMap.remove
contains_key-remove id other [] h = refl
contains_key-remove id other ((key, s) ∷ items) h =
    ground (arith, contains_key-remove id other items)

-- As many different ids as are taken have a request each.
taken-le-length :
    (n i : ℕ) (items : IndexMap Sender)
    → ((j : ℕ) → i ≤ j → j < i + n → contains_key j items ≡ true)
    → n ≤ length items
taken-le-length zero i items taken = omega arith
taken-le-length (suc n) i items taken =
    let first : contains_key i items ≡ true = taken i (omega arith) (omega arith) in
    let rest = taken-le-length n (i + 1) (IndexMap.remove i items) (λ j above below.
      let different : (i == j) ≡ false = ground arith in
      rw (contains_key-remove i j items different) (taken j (omega arith) (omega arith))) in
    omega (arith, rest, length-remove i items first)

find_free-none :
    (n i : ℕ) (items : IndexMap Sender)
    → find_free n i items ≡ none
    → (j : ℕ) → i ≤ j
    → j < i + n
    → contains_key j items ≡ true
unfolding find_free
find_free-none zero i items e j above below = absurd (omega arith)
find_free-none (suc n) i items e j above below = elim (Bool-cases (i == j)) [
  | inl same ↦ ground arith
  | inr other ↦ find_free-none n (i + 1) items (ground arith) j (ground arith) (omega arith)
]

find_free-some :
    (n i id : ℕ) (items : IndexMap Sender)
    → find_free n i items ≡ some id
    → (id < i + n) × (contains_key id items ≡ false)
unfolding find_free
find_free-some zero i id items e = cc
find_free-some (suc n) i id items e = elim (Bool-cases (contains_key i items)) [
  | inl taken ↦
      let (below, free) = find_free-some n (i + 1) id items (ground arith) in (omega arith, free)
  | inr free ↦ ground arith
]

lookup-retain_open-none :
    (is_closed : Sender → Bool) (id : ℕ) (items : IndexMap Sender)
    → lookup id items ≡ none
    → lookup id (retain_open is_closed items) ≡ none
unfolding retain_open lookup
lookup-retain_open-none is_closed id [] h = refl
lookup-retain_open-none is_closed id ((other, s) ∷ items) h =
    ground (arith, lookup-retain_open-none is_closed id items)

retain_open-IsMap :
    (is_closed : Sender → Bool) (items : IndexMap Sender)
    → IsMap items
    → IsMap (retain_open is_closed items)
unfolding retain_open
retain_open-IsMap is_closed [] h = tt
retain_open-IsMap is_closed ((id, s) ∷ items) h =
    ground
      (arith, retain_open-IsMap is_closed items h.1, lookup-retain_open-none is_closed id items h.0)

length-retain_open-le :
    (is_closed : Sender → Bool) (items : IndexMap Sender)
    → length (retain_open is_closed items) ≤ length items
unfolding retain_open
length-retain_open-le is_closed [] = omega arith
length-retain_open-le is_closed ((id, s) ∷ items) =
    ground (arith, length-retain_open-le is_closed items)

-- What the insertion of a request comes to where a permit is left.
pub record Fresh (is_closed : Sender → Bool) (sender : Sender) (m : RequestMap) (id : ℕ)
    (m' : RequestMap) : Type 0 where
  pub in_range : id ≤ u16_max
  pub free : contains_key id (retain_open is_closed m.items) ≡ false
  pub answerable : (remove id m').0 ≡ some sender
  pub others :
      (other : ℕ)
      → (id == other) ≡ false
      → lookup other m'.items ≡ lookup other (retain_open is_closed m.items)
  pub wf : IsWf m'

free_id :
    (items : IndexMap Sender)
    → length items ≤ u16_max
    → (id : ℕ) × (find_free (u16_max + 1) 0 items ≡ some id)
free_id items few = elim (Option-cases (find_free (u16_max + 1) 0 items)) [
  | inl full ↦
      let crowded =
        taken-le-length (u16_max + 1) 0 items (find_free-none (u16_max + 1) 0 items full) in
      absurd (omega (arith, crowded, few))
  | inr found ↦ found
]

-- In a well-formed map with a permit left, a request gets a 16-bit id that no open request has, its
-- response will reach it, the open requests keep theirs, and the map stays well formed: the insertion
-- never fails for want of ids.
pub insert-Fresh :
    (is_closed : Sender → Bool) (sender : Sender) (m : RequestMap)
    → IsWf m
    → 0 < m.permits
    → (id : ℕ) × (m' : RequestMap) × (insert is_closed sender m ≡ inserted id m')
      × Fresh is_closed sender m id m'
unfolding insert remove
insert-Fresh is_closed sender m w some_left =
    let items = retain_open is_closed m.items in
    let fewer = length-retain_open-le is_closed m.items in
    let (id, found) = free_id items (omega (arith, fewer, w.held)) in
    let (below, free) = find_free-some (u16_max + 1) 0 id items found in
    let after : RequestMap = record {
      items = IndexMap.insert id sender items;
      permits = m.permits - 1 + (length m.items - length items);
    } in
    (
      id,
      after,
      ground (arith, found),
      record {
        in_range = omega arith;
        free = free;
        answerable = ground (arith, lookup-insert id id sender items);
        others = λ other different. ground (arith, lookup-insert id other sender items);
        wf = record {
          unique = insert-IsMap id sender items (retain_open-IsMap is_closed m.items w.unique);
          held = omega (arith, length-insert id sender items free, fewer, w.held);
        };
      },
    )

-- Taking a request out keeps the map well formed.
pub remove-IsWf : (id : ℕ) (m : RequestMap) → IsWf m → IsWf (remove id m).1
unfolding remove
remove-IsWf id m w = elim (Option-cases (lookup id m.items)) [
  | inl absent ↦ rw (absent, remove) w
  | inr (sender, e) ↦
      let there : contains_key id m.items ≡ true = unfold contains_key in ground (arith, e) in
      rw (e, remove)
        (record {
          unique = remove-IsMap id m.items w.unique;
          held = omega (arith, length-remove id m.items there, w.held);
        })
]
