-- ===== src/Tests.antt =====
-- Concrete inputs, and the properties applied to them.
pub mod Numbers
pub mod Limits
pub mod Heaps
pub mod Routes
pub mod Overlay
pub mod Caches
pub mod Requests
pub mod Matrices
pub mod Places
pub mod Compiled
pub mod Dispatched
