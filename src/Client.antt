-- ===== src/Client.antt =====
-- include/VCacheClient.h and src/VCacheClient.cpp: the client's end of a connection.
pub mod Receive
pub mod Command
pub mod Connect
pub mod Arrivals
pub mod Keys
