-- ===== src/Background.antt =====
-- src/ExpirationSweeper.cpp and src/SnapshotScheduler.cpp: the threads that work on a timer.
pub mod Sweeper
pub mod Scheduler
pub mod Thread
pub mod Lifecycle
