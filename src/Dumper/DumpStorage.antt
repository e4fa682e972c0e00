-- ===== src/Dumper/DumpStorage.antt =====
-- elfo-dumper/src/dump_storage.rs: dumps are kept in parts, an active one for each thread (a shard)
-- and filled ones that wait for the writer, which drains them. A thread is the number of its shard.
-- A `VecDeque` has its front first, a `Vec` that is a stack its last element. Debug assertions and
-- the preallocation of a part are left out.
pub mod Fund
pub mod Registry
pub mod Drain
pub mod Storage
pub mod Parts
pub mod Kept
pub mod Changes
pub mod Steps
pub mod Accounts
pub mod Limits
pub mod Order
pub mod Delivery
pub mod Emptied
