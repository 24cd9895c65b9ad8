-- ===== src/Programs.antt =====
-- server/main.cpp and client/main.cpp: the parts of the two programs that compute.
pub mod ByteSize
pub mod Numbers
pub mod Arguments
pub mod Allowed
pub mod ServerMain
pub mod FinalSave
pub mod OneShot
pub mod ClientMain
pub mod Joined
pub mod KeysShown
pub mod Shown
