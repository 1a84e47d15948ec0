-- ===== src/Lib.antt =====
-- dagworker: a scheduler for graphs of tasks. A graph lives in a scope; workers claim nodes that are
-- ready under a lease, complete them, and the engine decides from the trigger rules what becomes
-- ready, and what can never run. The library models the Go package at the repository's root and the
-- in-memory backend under storage/memory, which the other backends are held to.
--
-- Base, with its children: names passed on from the libraries, lists, integers, machine words, byte
--   strings (a Go string is its list of bytes) and finite maps (a Go map is an association list).
-- Errors (errors.go): a sentinel or an error struct; rendered texts are left out.
-- Status (status.go): Status, Reason and Phase with their textual forms.
-- Trigger (node.go): TriggerRule and DepCounts: Ready, Unsatisfiable, TerminalReason.
-- Backoff (backoff.go): Backoff, with the jitter as an optional function.
-- Identifier (identifier.go): the validators; utf8.ValidString is written out in Identifier.Utf8.
-- Config (config.go): ScopeConfig: Resolved, validate, ClampClaimBatch, ClampLease.
-- Node (node.go): Node, NodeSpec.Validate, RetryPolicy, CascadePolicy.
-- Event (event.go, store.go): Event, Effect, SubscribeOptions and its filter.
-- Pq (internal/pq/pq.go): the indexed heap; `less` is an argument of every operation, since the
--   source's closure reads arrays that change.
-- Memory (storage/memory):
--   State, Heaps (scope.go): the scope, its handles, counters, ready sets and timers.
--   Log (watch.go): record, appendLog, the start and one round of a subscription.
--   Edges, Settle (scope.go): the tallies, and promoteScheduled, settle and terminate.
--   Topo (topo.go): the incremental topological order.
--   Graph, Change (graph.go): AddNodes, AddEdges, RemoveEdges, RemoveNode, Cancel, CancelScope.
--   Lease, Complete (lease.go): Claim, Complete, Extend, Sweep.
--   Store, Entry (memory.go, graph.go, lease.go): the store and the calls as the port makes them.
--   Engine, Terminate, Settled, Resolved, Rest, EdgeRest, Attempt, LeaseRest, CancelRest, Fence,
--   Spent, Limits, Recycle, Retention, Promote,
--   Partial: the proofs, by what they are about.
--   Snapshot, with Sorted, Taken, Restore and Whole (snapshot.go): Snapshot and Restore, over one scope
--     and over all; RoundTrip and its children are the proofs.
--   Listing (memory.go): ListNodes, one page at a time; Order and Pages are the proofs.
--   Samples, Tests: concrete scopes, and the theorems applied to them.
-- File (storage/file):
--   Gate (nondeterminism.go): the clock and the jitter that record or replay their readings; Replay.
--   Frame (log.go): the frames of the log, append and readAll; Torn.
--   Store (file.go, store.go, compact.go, log.go): mutate, Open, replay, Compact, Close; its children
--     History, Reopen and Compaction are the proofs.
--   Samples, Tests: a backend of a single lease with its encodings, and runs over it.
-- Manager (manager.go, claim.go, subscribe.go):
--   Subscription: the bounded channel of a subscription and offer; Stream, Delivery.
--   Registry: addSubLocked, dropSub, subsFor, publish; Filing, Adding, Offers, Publish.
--   Calls: the calls that check their arguments, go to the store and publish its effects; Guard, Writes.
--   OverMemory: the memory store as the port that Calls takes. Tests: runs.
-- Adapter (adapters/http, adapters/grpc): LeaseId (leaseid.go), the token of a lease; Problem (errors.go,
--   problem.go), the tables of errors; Tests.
--
-- How the code is modelled. An operation is a function from the scope to the scope, with the effects
-- that the source returns and its error; the scope's mutex makes each of them one step. The parallel
-- arrays that handles index are functions with their length in `slots`; a timestamp is a number of
-- nanoseconds since the epoch; the clock is a sequence of readings and the scope counts how many it
-- took; a channel that is closed to wake its waiters is the number of times that this was done. The
-- order in which a range over a map goes is that of a list that the operation is given or keeps. A
-- uint32 or uint64 counter wraps, but for the Dropped count of a subscription, which is an unbounded
-- number: it would take 2^64 lost events to wrap. An int64 rank or order of insertion does not wrap
-- either, since it grows by one for a node.
-- The file backend's memory store is a parameter: its states, its commands as programs that ask for
-- readings (Prog) and may also depend on the order in which a range over a map goes, which is not
-- recorded (CancelScope; two runs in Memory/Tests), its snapshots. So are the encodings (encoding/gob) and the checksum (hash/crc32). A
-- disk is the bytes of the log and of the snapshot file; a write to the log may be cut short after any
-- byte, and a process may die between two steps.
-- The Manager's store is a parameter (Port), which OverMemory fills. A consumer receives from its
-- channel between any two steps of an offer, since it does not take the subscription's lock; how many
-- events it receives there is an argument.
--
-- Fuel. terminate takes one round more than the scope has edges, since a node ends once and queues
-- its successors then. The loops of the heap take the number of its items, promoteScheduled that of
-- the scheduled heap, readAll the bytes of the file, the reclaim and claim loops the limits that the
-- source counts to, and the searches of the topological order the number of slots, which bounds the
-- nodes they enter.
--
-- Not modelled: the Manager's goroutines (the waiting claim, maintenance, durable subscriptions, Close),
-- its read-only calls, and the typed wrappers (typed.go, options_node.go, clock.go); the PostgreSQL and
-- Redis backends, the rest of the gRPC and HTTP adapters and the daemon, which wire, transport or
-- persist; of the file backend the dispatch of a record to its call, directories, and failures of
-- files; waiting on channels.
pub mod Base
pub mod Errors
pub mod Status
pub mod Trigger
pub mod Backoff
pub mod Identifier
pub mod Config
pub mod Node
pub mod Event
pub mod Pq
pub mod Memory
pub mod File
pub mod Manager
pub mod Adapter
