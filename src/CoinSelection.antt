-- ===== src/CoinSelection.antt =====
-- crates/chia-sdk-utils/src/coin_selection.rs: the selection of coins for an amount. Amounts are u64 and
-- sums u128, so that no sum of fewer than 2 ^ 64 coins wraps.
pub mod Knapsack
pub mod Select
pub mod Totals
pub mod Sound
pub mod Largest
pub mod Sorted
pub mod Choice
pub mod Tests
