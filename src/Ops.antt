-- ===== src/Ops.antt =====
-- src/reactor.rs: the operations that tasks ask of the event loop (`EventLoopOp`).
pub mod Winit
pub mod Request
pub mod Run
