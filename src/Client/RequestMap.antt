-- ===== src/Client/RequestMap.antt =====
-- crates/chia-sdk-client/src/request_map.rs: the requests that wait for a response, by id. A request
-- holds a permit of the semaphore for as long as it is in the map or is taken out of it.
use chia_wallet_sdk.Prelude.{
  ℕ, zero, suc, ◌+◌, ◌-◌, ◌^◌, Bool, not, Option, none, some, [], if◌then◌else◌, length, select,
}
use chia_wallet_sdk.Prelude.IndexMap
use chia_wallet_sdk.Prelude.IndexMap.{IndexMap, lookup, contains_key}

-- The channel by which a request gets its response.
abbrev pub Sender : Type 0
Sender = ℕ

-- `permits` are those left of the semaphore.
pub record RequestMap : Type 0 where
  pub items : IndexMap Sender
  pub permits : ℕ

abbrev pub u16_max : ℕ
u16_max = 2 ^ 16 - 1

unfoldable pub new : RequestMap
new = record { items = []; permits = u16_max }

-- The first id of `n` ids from `i` on that no request has.
unfoldable pub find_free : ℕ → ℕ → IndexMap Sender → Option ℕ
find_free zero i items = none
find_free (suc n) i items =
    let rest = find_free n (i + 1) items in if contains_key i items then rest else some i

-- What `insert` comes to: it waits for a permit, or gives an id.
pub data Inserted : Type 0 where
  waits : Inserted
  panics : Inserted
  inserted : ℕ → RequestMap → Inserted

-- The requests whose sender is not closed; the others give their permits back.
unfoldable pub retain_open : (Sender → Bool) → IndexMap Sender → IndexMap Sender
retain_open is_closed items = select (λ item. not (is_closed item.1)) items

unfoldable pub insert : (Sender → Bool) → Sender → RequestMap → Inserted
insert is_closed sender m = elim m.permits [
  | zero ↦ waits
  | suc permits ↦
      let items = retain_open is_closed m.items in
      elim (find_free (u16_max + 1) 0 items) [
        | none ↦ panics
        | some index ↦ inserted index (record {
          items = IndexMap.insert index sender items;
          permits = permits + (length m.items - length items);
        })
      ]
]

-- The caller sends the request's response at once, which gives the permit back.
unfoldable pub remove : ℕ → RequestMap → Option Sender × RequestMap
remove id m = elim (lookup id m.items) [
  | none ↦ (none, m)
  | some sender ↦
      (some sender, record { items = IndexMap.remove id m.items; permits = m.permits + 1 })
]
