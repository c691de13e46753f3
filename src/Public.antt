-- ===== src/Public.antt =====
-- public/: the helpers of the configuration.
pub mod Config
pub mod Format
pub mod Log
pub mod Trim
