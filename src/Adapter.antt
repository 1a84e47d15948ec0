-- ===== src/Adapter.antt =====
-- What the HTTP and gRPC adapters put on the wire for a lease and for an error.
pub mod LeaseId
pub mod Problem
pub mod Tests
