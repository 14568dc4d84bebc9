-- ===== src/Window.antt =====
-- src/window.rs and src/window/registration.rs: which handler an event of winit's reaches, and what
-- a window builder hands to winit's.
pub mod Registration
pub mod Builder
pub mod Methods
pub mod Lifetime
pub mod Handlers
pub mod Direct
