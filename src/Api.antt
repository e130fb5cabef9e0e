-- ===== src/Api.antt =====
-- The handlers of the HTTP API: aws_light/api.
pub mod Errors
pub mod Storage
pub mod Services
