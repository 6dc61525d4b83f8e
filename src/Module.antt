-- ===== src/Module.antt =====
-- internal/module: checks that run as separate programs.
pub mod Pool
pub mod Schema
pub mod Placeholder
pub mod Manifest
