-- ===== src/Iac.antt =====
-- Infrastructure as code: manifests (aws_light/models/manifest.py) and what applies them.
pub mod Manifest
pub mod Results
pub mod Applier
