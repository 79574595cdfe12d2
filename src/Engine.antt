-- ===== src/Engine.antt =====
-- The engine of backend.go under any sequence of requests.
pub mod Guards
pub mod Handlers
pub mod Issues
pub mod Recoveries
pub mod Rotations
pub mod Steps
pub mod Updates
