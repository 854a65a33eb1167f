-- ===== src/Manifest.antt =====
-- ml/manifest.py: versions, the model card, and `save_bundle`.
pub mod Card
pub mod Save
pub mod Build
