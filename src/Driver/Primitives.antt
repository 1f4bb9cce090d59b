-- ===== src/Driver/Primitives.antt =====
-- crates/chia-sdk-driver/src/primitives: the assets, and how their coins are spent and parsed.
pub mod Cat
pub mod Launcher
pub mod Outer
pub mod Did
pub mod Nft
mod Tests
