-- ===== src/Logger.antt =====
-- include/AsyncLogger.hpp and src/AsyncLogger.cpp: threads push log messages to queues of their own,
-- and a background thread writes them as lines to a file mapped into memory.
pub mod Types
pub mod Line
pub mod File
pub mod Threads
pub mod Background
pub mod Mapped
pub mod Written
pub mod Drained
pub mod Delivered
pub mod Registered
pub mod Logged
mod Tests
