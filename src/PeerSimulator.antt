-- ===== src/PeerSimulator.antt =====
-- crates/chia-sdk-test/src/peer_simulator: the simulated full node that wallets connect to. Its
-- subscriptions, its messages, the handlers of ws_connection.rs, and what is proved of them.
pub mod Subscriptions
pub mod Messages
pub mod Updates
pub mod Handlers
pub mod Connection
pub mod Limits
pub mod Pages
pub mod Tests
