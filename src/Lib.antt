-- ===== src/Lib.antt =====
-- Verification of the payment channels and the payment tasks of pylons, an off-chain payment network.
-- Two participants keep a channel each: what they have deposited in the contract, what each has
-- transferred to the other by signed balance proofs, and the hash time locks that are pending, over
-- whose hashes a Merkle tree is built. State changes come from the user, from the partner's messages and from the chain;
-- `StateTransitionForChannel` and the payment tasks hand each to a handler, which changes the channel
-- and returns events: messages to send, transactions for the contract, news for the user. A payment
-- that is conditional on a secret has a task at each node on its way: the initiator picks a channel
-- and sends a locked transfer, a mediator takes it and sends another one on, the target reveals the
-- secret, which goes back along the way as each node pays its lock out.
--
-- The files, and the code that they are about:
--   Common          common/types.go, common/signature.go, common/common.go, common/config.go: hashes
--                   and addresses as numbers, and `Env`, the functions and constants that come from
--                   outside the repository, a parameter of all that uses them
--   State           transfer/state.go: the records; State/SyncMap the maps from secret hashes
--   Event           transfer/events.go, and the errors of transfer/channel.go
--   StateChange     transfer/statechange.go, for the channel
--   Merkle          transfer/merkle_tree.go, and computeMerkleTreeWith, computeMerkleTreeWithout of
--                   transfer/channel.go; below it Sorting, Layers, RoundTrip, Order and
--                   Proof are proofs
--   Channel         transfer/channel.go, transfer/pack.go, transfer/utils.go. Locks are the registers
--                   of locks, Balance the amounts and nonces, Status the state of the transactions,
--                   Packing what is hashed and signed, Validity which messages are accepted, Send and
--                   Unlock the messages that are sent, Result what a handler returns, Direct, Receive,
--                   Withdraw, CooperativeSettle and Chain the handlers, Transition the transition
--                   function. Agreement is about two channels at once, one for each participant;
--                   the other modules below these hold proofs
--   Task            the tasks' state and state changes, from transfer/state.go and
--                   transfer/statechange.go. Target is transfer/mediated_target.go, Initiator
--                   transfer/mediated_initiator.go with Initiator.Secrets, Manager
--                   transfer/mediated_initiator_manager.go, Mediator transfer/mediator.go,
--                   and Timing the tests that they share. Payment is about an initiator and a target
--                   that share a channel; the modules below Mediator that it says to hold proofs,
--                   Target.Claims, Initiator.Release and Manager.Refund are proofs
--   Route           route/dfs.go, and Best the choice of a route by service/route.go with the channel
--                   lookup of transfer/views.go; Paths, Fuel, Search and Shortest hold proofs
--   Examples        sample channels, and runs of the theorems on them
--   Base            numbers, words, lists, sorting, and the outcomes of Go functions
--
-- How Go is rendered: a method that mutates its channel takes the channel and returns the new one. An
-- error return is `err`, a run-time panic (a nil dereference, an index out of range) is `panic`. A
-- `uint64` or `uint32` is a natural number below the modulus, and each sum, difference and conversion
-- keeps its wrap-around. Log lines are left out. A map is an association list, `range` over a map a
-- sum or a fold in list order. The random message ids of `common.GetMsgID` are arguments; a loop takes
-- a sequence of them. A task that changes a channel through its pointer takes the map of the channels
-- and stores the changed channel under its identifier. `TaskEnv` adds to `Env` the decryption of a
-- secret, the floating-point expressions of the mediation fee, and the order in which `range` visits
-- the map of MdFilterUsedRoutes.
--
-- Loops: the search for paths runs on fuel, the number of the edges and one, which is enough since
-- each step meets the end of an edge that the path has not met. `computeLayers` runs on fuel, the
-- number of leaves, and the loop of `handleBlock` over the deposits on the length of the queue. Either
-- is enough, since each round halves the layer, rounded up, or takes one deposit off the queue. All other loops are structural.
--
-- Not modelled: the dispatch (transfer/node.go, transfer/tokennetwork.go), the weighted paths
-- (route/dijkstra.go), the storage, the network and actor directories and, but for the choice of a
-- route, the service directory, which are I/O and glue. What a valid signature is, is left to `Env`,
-- of which no property is assumed. For the choice of a route, which nodes the transport reaches, which
-- DNS nodes the chain knows, and the order of a range over the neighbours of a node are parameters.
pub mod Base
pub mod Common
pub mod State
pub mod Event
pub mod StateChange
pub mod Merkle
pub mod Channel
pub mod Task
pub mod Route
pub mod Examples
