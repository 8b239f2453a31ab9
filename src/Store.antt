-- ===== src/Store.antt =====
-- memory_store/store.rs: the operations of `MemoryStore` as actions on a disk.
pub mod Disk
pub mod Steps
pub mod Locate
pub mod Artifacts
pub mod Status
pub mod Keeps
pub mod Limits
pub mod Write
pub mod Merge
pub mod Consolidate
pub mod ReadOnly
pub mod Dream
