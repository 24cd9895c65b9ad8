-- ===== src/Server.antt =====
-- src/Server.cpp and src/VCacheClient.cpp: the two ends of a connection. TCP carries a stream of bytes,
-- which both of them cut into lines.
pub mod Lines
pub mod Send
pub mod Connection
pub mod Framing
pub mod Start
pub mod StartSafe
pub mod Accept
pub mod Peer
pub mod Transcript
pub mod Registry
pub mod ClosedOnce
pub mod Ending
pub mod Threads
pub mod Stages
pub mod Kept
pub mod Ended
pub mod Lasting
pub mod Accounted
