-- ===== src/Serving.antt =====
-- inference/: the sidecar that serves the model.
pub mod Validate
pub mod Drift
pub mod Shadow
pub mod Metrics
pub mod Load
pub mod Handlers
