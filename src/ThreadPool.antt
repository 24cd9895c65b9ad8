-- ===== src/ThreadPool.antt =====
-- include/ThreadPool.h and src/ThreadPool.cpp: a bounded queue of tasks, and the workers that run them.
pub mod Pool
pub mod Reached
pub mod Drained
