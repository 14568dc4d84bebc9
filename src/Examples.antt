-- ===== src/Examples.antt =====
-- Tests: each theorem that has conditions is applied to small concrete values, at which they hold.
pub mod Tasks
pub mod Sleeps
pub mod Notified
pub mod Blocks
pub mod Lists
pub mod Timers
pub mod Loops
pub mod Windows
pub mod Answers
pub mod Programs
pub mod Platforms
pub mod Runs
