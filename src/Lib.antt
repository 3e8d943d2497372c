-- ===== src/Lib.antt =====
-- PirateShip, a consensus protocol with crash commits and Byzantine commits: a model of the core of
-- src/consensus, with the thresholds of src/config and the block layout of src/utils and src/crypto.
--
-- A node is a set of tasks, each of which owns its state and takes commands from channels. The
-- batch proposer gathers the requests of clients, and the client reply handler answers them when
-- their block commits. The leader's block sequencer numbers and links blocks; the fork receiver
-- checks what other nodes send; the block broadcaster stores blocks and passes them on; staging
-- keeps the blocks that are not yet committed for good, counts votes, makes certificates and decides
-- both commits; the log server keeps the log and answers questions about it; the pacemaker gathers
-- view change messages; the application executes what is committed.
--
-- Files:
--   Common: shared notation, tests on numbers and byte strings, lists, maps as association lists,
--     64-bit subtraction, and `Outcome`, which is a result, a panic, `Err(())` or a lack of fuel.
--   Types: src/proto/{consensus,execution,checkpoint}.proto, `CachedBlock` of src/crypto/service.rs
--     and `SenderType` of src/rpc/mod.rs.
--   Chain: hash chains of blocks.
--   Config: `ConsensusConfig` of src/config/mod.rs, and the thresholds that
--     src/consensus/staging/{steady_state,fork_choice}.rs and src/consensus/pacemaker.rs compute.
--     `validate_or_die` is the check of `AtomicConfig::set_checked`, which start-up does not run.
--   Crypto: the layout of a serialised block, and the services that staging calls as a parameter.
--     Serialize is src/utils/serialize.rs, Keys the key store of src/crypto/ed25519.rs, Service the
--     commands of src/crypto/service.rs on blocks and certificates, ViewChanges those on view changes.
--   LogServer: src/consensus/logserver.rs. ReadCache is the cache of collected blocks, State the
--     log, Blocks the lookup of a block, Backfill the reply to a nack, Queries the two queries.
--   ForkChoice: src/consensus/staging/fork_choice.rs.
--   Staging: src/consensus/staging. State is the struct, Commit both commits, Votes the votes and
--     certificates, ViewChange and NewView the two sides of a view change, Blocks what an incoming
--     block does, and Worker the select loop, one event at a time.
--   Sequencer: src/consensus/block_sequencer.rs, one turn of its select loop at a time.
--   Broadcaster: src/consensus/block_broadcaster.rs.
--   ForkReceiver: src/consensus/fork_receiver.rs; Commands has the handlers.
--   Pacemaker: src/consensus/pacemaker.rs.
--   Proposer: src/consensus/batch_proposal.rs.
--   Replies: src/consensus/client_reply.rs.
--   Kvs: src/consensus/engines/kvs.rs. Blocks has the handlers, Spec the operations on a plain map
--     that crash commits stand for.
--   App: src/consensus/app.rs, over the interface of an engine; Stores is the key-value store as one.
--   Examples: runs on concrete inputs.
--
-- Feature flags are the default ones: round_robin_leader, dynamic_sign, view_change, storage,
-- fast_path and platforms are on; no_qc, extra_2pc, extra_qc_check, no_pipeline, perf and
-- evil are off.
--
-- How the code is read. A task owns its state, so each of its functions is a function on that state;
-- what it sends is appended to the field `sent` as a `Command`, and what it receives is an argument.
-- Byte vectors and strings are lists of numbers. A `HashMap` is an association list; the source does
-- not say in which order it is walked, and a theorem on such a list holds of any order. A `BTreeMap`
-- is an association list in the order of its keys. A `binary_search_by` is the first match from the
-- left. Sequence numbers and views are numbers without a bound, as src/proto/consensus.proto says
-- not to mind a wrap-around; a subtraction that can go below zero wraps at 2 ^ 64 (`sub64`).
-- Storage is a function from hashes to blocks, and the cryptographic services are the record
-- `Crypto`: both are parameters of the tasks that use them. Of the services themselves, SHA-512,
-- Ed25519 and prost are parameters (`Primitives`, `Codec`). Where one task asks another, the answers
-- are an argument (`Answers`). A storage acknowledgement is named by the number of its block.
--
-- Fuel: the walk from a block back to one of its ancestors takes as much fuel as their numbers are
-- apart, and the loop of `GetHints` the number of the last block, since its counter rises in each
-- turn; the theorems on both say that a result is reached. A block handler calls itself again after
-- a jump to a higher view, which happens once, so `worker` gives it two rounds.
--
-- Not modelled: the network, timers, channels and thread pools, the performance counters, the wire
-- format, the front end and the clients, and the features that are off.
pub mod Common
pub mod Types
pub mod Chain
pub mod Config
pub mod Crypto
pub mod LogServer
pub mod ForkChoice
pub mod Staging
pub mod Kvs
pub mod Sequencer
pub mod Pacemaker
pub mod Proposer
pub mod Replies
pub mod ForkReceiver
pub mod App
pub mod Broadcaster
pub mod Examples
