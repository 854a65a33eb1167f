-- ===== src/Tests.antt =====
-- The libraries as concrete functions, and the theorems at concrete inputs.
pub mod Instances
pub mod Signing
pub mod Saving
pub mod Serving
pub mod Simulation
pub mod Promotion
pub mod Gate
pub mod Evaluation
pub mod Training
pub mod Cli
pub mod Control
pub mod Listeners
pub mod Export
pub mod Rotating
