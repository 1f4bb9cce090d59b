-- ===== src/Conditions/Lists.antt =====
-- crates/chia-sdk-types/src/conditions.rs: lists of conditions. A conversion into a condition is made by
-- the caller.
use chia_wallet_sdk.Prelude.{List, [], ◌∷◌, ◌++◌}
use chia_wallet_sdk.Conditions.{Condition}

pub record Conditions (T : Type 0) : Type 0 where
  pub conditions : List (Condition T)

module _ {T : Type 0} where
  unfoldable pub new : Conditions T
  new = record { conditions = [] }

  unfoldable pub with_condition : Conditions T → Condition T → Conditions T
  with_condition s condition = record { conditions = s.conditions ++ condition ∷ [] }

  unfoldable pub extend : Conditions T → List (Condition T) → Conditions T
  extend s conditions = record { conditions = s.conditions ++ conditions }

  unfoldable pub extend_from_slice : Conditions T → List (Condition T) → Conditions T
  extend_from_slice s conditions = record { conditions = s.conditions ++ conditions }
