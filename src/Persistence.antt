-- ===== src/Persistence.antt =====
-- include/Persistence.h and src/Persistence.cpp: the snapshot format, and the store that writes and
-- reads it.
pub mod Little
pub mod Clocks
pub mod Encode
pub mod Decode
pub mod RoundTrip
pub mod Loaded
pub mod Deadline
pub mod Corrupt
pub mod Untrusted
pub mod Outcome
pub mod Disk
pub mod Store
pub mod Atomic
pub mod Completes
pub mod Revived
