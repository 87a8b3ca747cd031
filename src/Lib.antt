-- ===== src/Lib.antt =====
-- Models of the Rust program ess-p2p-rs and theorems about them.
--
-- The program is one node of a peer-to-peer network. Modelled here:
-- - src/crdt_state.rs: the state that nodes replicate (`CrdtWorldState` and its registers, sets,
--   counters and peer registry), in Crdt and its children. A method that changes an object is a
--   function that returns the new object, under the method's name (`insert`, `add` and `remove` of
--   the sets are `insert_item`, `add_item` and `remove_item`).
-- - src/merkle_dag.rs: the audit trail that each merge extends, in Dag.
-- - src/authority.rs: roles and permissions (Authority), and `AuthorityManager` with its lock, its
--   signed updates and its pending peers (Authority/Manager).
-- - src/ghost.rs: the engine that wakes, sends beacons and batches, and wipes itself, in Ghost. An
--   engine sends into a list; `run` (Ghost/Loop) goes over the inputs that its `select!` chose, each
--   with the clock that stood when it was handled.
-- - src/security.rs and the messages of src/message.rs, src/config.rs, src/gateway.rs and src/web.rs:
--   Security and Security/Signing.
-- - src/security_runtime.rs: the replay cache (Security/Replay), `NonceCache` and `RateLimiter`
--   (Security/Limits), and `PolicyInner` (Security/Policy), whose verifiers all begin with the
--   replay cache and ask Authority for permissions.
-- - src/governance/engine.rs and messages.rs: proposals and votes, in Governance. Governance/Receive
--   is the handler of a peer's vote in src/network/runtime/events.rs, which ties Security/Policy,
--   Authority and Governance together.
-- - src/sss.rs: secret sharing. Sss has the arithmetic, whose tables are computed as the program fills
--   them at start-up, and Sss/Shares has `split` and `reconstruct`. Sss/CharTwo, Sss/Lagrange and Sss/Powers are about
--   any field of characteristic two, Sss/Bytes makes the bytes one, and Sss/Weights and Sss/Recover read
--   the loops in it; Sss/Refusals is about the errors.
-- - src/compute: the jobs and their validation (Compute), the store (Compute/Store), the scheduler as a
--   run over its inputs (Compute/Scheduler) and the handler of messages (Compute/Network), which asks
--   Authority. Compute/Keys and Compute/Queue state what the queue stands for.
-- - src/world_state.rs: the world state of a node (World, World/Peers, World/Snapshot), and runs of its
--   operations (World/Run), which include what the handlers of votes and of activation notices do.
-- - src/storage_layer: objects in encrypted chunks (Storage), their put and get (Storage/Put and Storage/Get, with
--   the store of metadata and the table of hashes), and the handler of requests (Storage/Requests),
--   which asks Authority.
-- - src/ghost_health.rs, src/ghost_policy.rs and src/system_event.rs: the score of a node's health
--   (Health), and what the policy decides on it and on events (Health/Policy).
-- - src/ghost_runtime.rs: the runtime that assesses the node by Health, reads World and commands Ghost
--   (Runtime), its ticks and its handle (Runtime/Ticks), and runs of what it is asked for (Runtime/Run).
-- - src/control_loop.rs: what the control loop does on events, with src/ghost_bridge.rs and
--   src/id_rotation.rs (Control), which ties Runtime, World and Ghost together (Control/Violation), and
--   what src/network_controller.rs reports to it when Authority or Security refuses a peer (Control/Enforce).
--
-- Shared has Boolean tests, lists, ordered keys and maps. A `BTreeMap` or `HashMap` is an
-- association list that `insert` keeps in the order of its keys, and a `String` or `PeerId` is its
-- bytes. A `u64` is a natural number, and the additions of counters, clocks and indices wrap at
-- 2 ^ 64 as in the release profile. Every loop is a recursion on the list that it walks, but for three on
-- fuel: the chunks of an object, no more than its bytes (Storage/Chunks, concat-chunks),
-- the digits of a decimal number, no more than the number's successor (Ghost/Render,
-- digits_enough), and the 16 shifts of a `u16` (Sss/Field, raw_mul_loop_enough).
--
-- Arguments of the model: AES-GCM with its nonces, Reed-Solomon, sled and Kademlia, the clock
-- readings, the bytes that the system's generator draws, the random tag of an `ORSet` addition and the
-- identifier of a proposal, the iteration order of the nonce cache's map, SHA-256, Ed25519, Base64,
-- serde and bincode, the UTF-8 decoder, the parser of peer ids, the byte order of the machine, the comparison of a ratio of two
-- `f64` numbers with the quorum, and the values and the order of the `f64` numbers of the Ghost policy.
--
-- Not modelled: what reads and writes files, sockets and HTTP (the stores of governance, of the
-- bootstrap cache and of Kademlia's records, the gateway, the dashboard); the lock and panic wrappers of
-- `SecurityRuntime`; the builders of messages; the other ticks of the control loop, which only send; the
-- network controller besides whether a peer may act, and the handlers of the network besides votes; the WASM executor,
-- onboarding, onion routing and the post-quantum keys, which mostly call libraries.
mod Shared
pub mod Dag
pub mod Crdt
pub mod Authority
pub mod Ghost
pub mod Governance
pub mod Security
pub mod Sss
pub mod Compute
pub mod World
pub mod Storage
pub mod Health
pub mod Runtime
pub mod Control
mod Tests
