-- ===== src/Database.antt =====
-- include/Database.h and src/Database.cpp: the sharded database. `Shard` is one locked slice,
-- `Engine` the class `Database`; the other children are proofs.
pub mod Shard
pub mod Engine
pub mod Evict
pub mod Store
pub mod Sound
pub mod New
pub mod Reads
pub mod Expired
pub mod Writes
pub mod Readers
pub mod Servable
pub mod Tamed
pub mod Limit
pub mod Requests
pub mod Swept
pub mod Refined
pub mod Lifetime
pub mod Restored
pub mod Restart
