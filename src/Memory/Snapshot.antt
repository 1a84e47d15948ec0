-- ===== src/Memory/Snapshot.antt =====
-- storage/memory/snapshot.go: a scope taken as a value that names nodes by their identifiers, and the
-- scope built from such a value.
pub mod Sorted
pub mod Taken
pub mod Restore
pub mod RoundTrip
pub mod Whole
pub mod Tests
