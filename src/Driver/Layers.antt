-- ===== src/Driver/Layers.antt =====
-- crates/chia-sdk-driver/src/layers: the layers of puzzles.
pub mod Cat
pub mod Singleton
pub mod Did
pub mod NftState
pub mod Standard
pub mod P2DelegatedConditions
pub mod P2OneOfMany
pub mod Delegation
pub mod P2Singleton
pub mod P2DelegatedSingleton
pub mod NftOwnership
pub mod Settlement
pub mod Writer
pub mod RoyaltyTransfer
pub mod Oracle
pub mod Value
