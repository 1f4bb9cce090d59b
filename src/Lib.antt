-- ===== src/Lib.antt =====
-- Verification of the Chia wallet SDK.
--
-- The SDK builds and signs spends of Chia coins, talks to full nodes, and has a simulator of a full node
-- for tests. This development models the following parts, each in a file of its name whose folder holds
-- the proofs. Paths are from the repository's root.
--
-- - Simulator: crates/chia-sdk-test/src/simulator.rs. The record `Simulator` has the fields of the
--   struct. `with_seed`, `insert_coin`, `new_coin`, `hint_coin`, `create_block` and the lookups are
--   functions of it. Simulator/Transaction has `new_transaction`, split as the code is: it collects the
--   changes (`collect_changes`), checks the removals (`validate_removals`) and only then writes
--   (`apply_plan`).
-- - PeerSimulator: crates/chia-sdk-test/src/peer_simulator/, a node over the simulator. Subscriptions
--   models subscriptions.rs; Updates the transactions and the updates to subscribers, Handlers the
--   queries and Connection the dispatch `handle_message` of ws_connection.rs. A connection shares the
--   simulator and the subscriptions (`Node`); a handler holds both locks to its end, so that handlers
--   are one step each.
-- - CoinSelection: crates/chia-sdk-utils/src/coin_selection.rs. Knapsack and Select have the functions
--   of the file, whose loops are recursion on the coins and on the rounds.
-- - MerkleTree: crates/chia-sdk-driver/src/merkle_tree.rs.
-- - Conditions: crates/chia-sdk-types/src/condition.rs and condition/agg_sig.rs. Signer:
--   crates/chia-sdk-signer/src/, which reads the signature conditions of a coin spend.
-- - Driver: crates/chia-sdk-driver/src/, the construction, spending and parsing of puzzles. Context has
--   the spend context of spend_context.rs with a method for each puzzle, as steps of its state (`Ctx`),
--   and Puzzle the parsed puzzles of puzzle.rs. Layer is the trait of layer.rs as a record with its laws
--   (`IsLayer`); Layers has a file for each file of layers/, and Primitives the CATs, the launchers,
--   the DIDs and the NFTs of primitives/. Cache, Wrapped, Lawful and Spends have the lemmas that the layers share:
--   what the cache holds, puzzles and solutions around an inner layer, and the spends that are made.
--   Examples is a small CLVM with codecs, on which the tests run.
-- - Offers: crates/chia-sdk-offers/src/, the compressed and the encoded form of an offer;
--   Interface has its errors and the crates that it calls, with their laws.
-- - Client: crates/chia-sdk-client/src/request_map.rs and peer.rs: the ids of requests, the loop over
--   inbound messages, and the reading of responses.
-- - Announcements: crates/chia-sdk-test/src/announcements.rs, the check that asserted announcements are
--   created. It returns a Boolean in place of a panic; what it prints is not modelled.
-- - Protocol has the data types of the chia_protocol crate that the parts use, and Prelude the names of
--   the libraries, lists, and the insertion-ordered maps and sets (IndexMap, IndexSet), which also stand
--   for hash maps and hash sets.
--
-- Parameters. Code that is not in the repository is an argument: `External` of Simulator has the random
-- generator, the coin id and the consensus code; CoinSelection has the generator of Booleans and its
-- seeding; MerkleTree, Signer and Announcements have SHA-256, the bytes of a hash and, for Signer, the encoding of
-- numbers, the CLVM codecs and interpreter, and the test of a key for infinity (for
-- Announcements, the output of a spend and the decoders of its conditions); Client has the parsers
-- of messages. For Driver, `Clvm` has CLVM's interpreter, currying, hashing and serialisation, `Mods` the
-- bytes and the hash of each puzzle, `Constructors` those of the chia_puzzles crate, and a `Codec` is
-- what the derived codecs of a type do; their laws are `IsClvm`, `IsMod`, `IsConstructors` and
-- `IsCodec`. `IsCodec` is not assumed of conditions: what `Condition::Other` points to may be decoded as
-- another condition. A node pointer is the value that it points to, and the allocator is not part of a state.
-- For Offers, `Library` has the bech32 and flate2 crates, the bytes of the puzzles in the dictionary and those of a bundle. `panicked` is the panic of a layer without solutions. Hashes, keys and socket addresses are numbers.
--
-- Bounds. Heights are `u32`s, whose wrap-around is written out. Sums of coin amounts are `u128`s of
-- `u64`s, which fewer than 2 ^ 64 coins cannot make wrap. The knapsack has its 1000 rounds. The fuel of
-- `list_to_binary_tree` is the number of leaves, and the halves of a list of two leaves or more are
-- shorter than it. A path of a Merkle proof is a `u32`, which holds the paths of at most 2 ^ 32 leaves.
-- Option `none` is a panic where a comment says so.
--
-- Not modelled. Messages are values in place of their bytes, and the sends of the peer simulator
-- succeed; the sort of coins keeps the order of coins with the same amount, where that of the code may
-- change it; the requests of a client are inserted one at a time. The drivers of the
-- DataLayer store, the building of offers, sockets, TLS, key derivation, the bindings and the derive macros are not
-- modelled.
pub mod Prelude
pub mod Protocol
pub mod Simulator
pub mod PeerSimulator
pub mod CoinSelection
pub mod MerkleTree
pub mod Conditions
pub mod Signer
pub mod Client
pub mod Announcements
pub mod Driver
pub mod Offers
