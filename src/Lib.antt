-- ===== src/Lib.antt =====
-- Verification of the shared log of Boki.
--
-- Boki runs serverless functions over shared logs. A view fixes the nodes of an epoch: engines take
-- appends, storage nodes keep the entries, and each active sequencer runs one physical log space. An
-- engine gives an append a local id (`LogProducer`) and sends the entry to the storage nodes of its
-- shard (`LogStorage`), which report to the sequencer how far the shard is stored without a gap. The
-- primary (`MetaLogPrimary`) orders what all storage nodes of a shard hold by a metalog entry, a
-- cut, and sends it to the backups and the other nodes. Each node keeps a copy of the metalog
-- (`LogSpaceBase`) and applies its entries in order, which gives the entries their sequence numbers.
-- An index (`Index`) answers where the next or the previous entry with a tag is. The controller
-- (`Controller`) ends a view by collecting the tails that the frozen sequencers (`Sequencer`) send, and
-- publishes the final positions, which each node learns by its `ViewWatcher`; then it opens the next
-- view. Apart from the log, a `Dispatcher` gives the calls of a function to its workers.
--
-- Files, with the code each one models:
--   Base, Base/*: shared helpers: number tests, lists, maps, outcomes.
--   Bits: src/utils/bits.h, and `GetViewId` of src/log/utils.cpp.
--   Proto: the messages of src/proto/shared_log.proto.
--   View, View/Plan: src/log/view.h and src/log/view.cpp, `View` and its node classes.
--   LogSpace: src/log/log_space_base.h and src/log/log_space_base.cpp, `LogSpaceBase`. The virtual
--     methods are a record of functions that change the state of the subclass.
--   Collection: `LogSpaceCollection` of src/log/log_space_base.h.
--   Primary, Producer, Storage: `MetaLogPrimary` and `MetaLogBackup`, `LogProducer`, and
--     `LogStorage` of src/log/log_space.h and src/log/log_space.cpp.
--   Index, Index/Queries: src/log/index.h and src/log/index.cpp, `PerSpaceIndex` and `Index`.
--   FutureRequests: the class of src/log/utils.h and src/log/utils.cpp.
--   Controller, Controller/Seal: src/log/controller.h and src/log/controller.cpp, `Controller`.
--   Watcher: src/log/view_watcher.h and src/log/view_watcher.cpp, `ViewWatcher` and `FinalizedView`.
--   Message: `SharedLogMessage` and its helper in src/common/protocol.h. Message/Payload: the parts of
--     a payload, src/log/utils.cpp.
--   Sequencer, Sequencer/Views, Sequencer/Handlers: src/log/sequencer.h and src/log/sequencer.cpp,
--     `Sequencer`, with the dispatch, replication and propagation of src/log/sequencer_base.cpp.
--   SpscQueue: src/ipc/spsc_queue.h and src/ipc/spsc_queue-inl.h. RoundRobin:
--     src/utils/round_robin_set.h.
--   Dispatcher: src/engine/dispatcher.h and src/engine/dispatcher.cpp, `Dispatcher`.
-- A definition has the name of the method or field in snake case, and takes the state last and gives
-- it back. Files below a component hold its proofs, and its Tests concrete runs.
--
-- Machine words are natural numbers, reduced modulo their width where the code computes them. The
-- model is of a build without the debug checks (`DCHECK`). `panic` is the outcome of a failed
-- `CHECK`, of `LOG(FATAL)`, and of a read that C++ leaves undefined or that throws. A lock makes
-- each method one step. `SPSCQueue` has no lock: each of its methods is taken as one step all the
-- same, and what its two sides may see within a method is not modelled. Logging, object pools and smart pointers have no counterpart. Hash maps are
-- lists in the order of their keys, which is one of the orders that the code may meet.
-- The loops that look for a first gap in a map run on fuel, one round for each entry of the map: each
-- round of the code's loop meets another entry, as long as the position does not wrap around.
--
-- Not modelled: the message handlers of engines and storage nodes, ZooKeeper, whose requests are a list
-- in the controller's state, the database, the connections, the gateway, the tracer and the manager of
-- workers, and the workers' libraries. What protobuf parses and prints is a parameter.
pub mod Base
pub mod Bits
pub mod Proto
pub mod View
pub mod LogSpace
pub mod Collection
pub mod FutureRequests
pub mod Controller
pub mod Watcher
pub mod Message
pub mod Sequencer
pub mod Dispatcher
pub mod SpscQueue
pub mod RoundRobin
pub mod Primary
pub mod Producer
pub mod Storage
pub mod Index
