-- ===== src/Client.antt =====
-- crates/chia-sdk-client: the requests of a peer and the responses that answer them (request_map.rs and
-- peer.rs). Messages are values; the sockets, the channels and the codecs are parameters.
pub mod RequestMap
pub mod Ids
pub mod Peer
pub mod Inbound
pub mod Tests
