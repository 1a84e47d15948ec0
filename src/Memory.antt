-- ===== src/Memory.antt =====
-- storage/memory: the in-memory backend, which is the reference implementation of the storage port.
pub mod State
pub mod Heaps
pub mod Log
pub mod Edges
pub mod Settle
pub mod Topo
pub mod Graph
pub mod Change
pub mod Lease
pub mod Complete
pub mod Store
pub mod Snapshot
pub mod Listing
pub mod Entry
pub mod Engine
pub mod Terminate
pub mod Settled
pub mod Resolved
pub mod Rest
pub mod EdgeRest
pub mod Attempt
pub mod LeaseRest
pub mod Fence
pub mod Retention
pub mod Spent
pub mod CancelRest
pub mod Limits
pub mod Recycle
pub mod Promote
pub mod Partial
pub mod Samples
pub mod Tests
