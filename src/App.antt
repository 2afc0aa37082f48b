-- ===== src/App.antt =====
-- internal/app: what the HTTP handlers call, over the services and the stores. `invalidField` is
-- `field_error`, whose reason text is left out.
pub mod Permissions
pub mod Refs
pub mod Teams
pub mod Connectors
pub mod Experts
pub mod Library
pub mod Skills
pub mod TaskConfig
