-- ===== src/File.antt =====
-- storage/file: a durable backend, which is the in-memory one with a log of commands around it.
pub mod Gate
pub mod Frame
pub mod Store
pub mod Samples
pub mod Tests
