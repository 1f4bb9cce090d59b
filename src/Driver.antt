-- ===== src/Driver.antt =====
-- crates/chia-sdk-driver: how the puzzles and the spends of coins are built and parsed, over CLVM, which
-- is a parameter.
pub mod Clvm
pub mod Context
pub mod Puzzles
pub mod Cache
pub mod Puzzle
pub mod Layer
pub mod Spends
pub mod Wrapped
pub mod Lawful
pub mod Layers
pub mod Primitives
pub mod Examples
mod Tests
