-- ===== src/HashTable.antt =====
-- include/HashTable.h and src/HashTable.cpp: the chained hash table with its recency list.
-- `Hash` has the hash and the bucket arithmetic, `Recency` the doubly linked list of raw pointers,
-- `Chain` one bucket, `Table` the class, `Sweep` its walks; the other children are proofs.
pub mod Hash
pub mod Recency
pub mod Chain
pub mod Table
pub mod Sweep
pub mod Swept
pub mod Sweeping
pub mod Buckets
pub mod Home
pub mod Sums
pub mod Relink
pub mod Target
pub mod Resize
pub mod Valid
pub mod New
pub mod Grow
pub mod Write
pub mod Put
pub mod Narrow
pub mod Listed
pub mod Remove
pub mod Modify
pub mod Evict
