-- ===== src/Scripts.antt =====
-- The checks of scripts/, which run outside the console over its files and those of the API.
pub mod Words
pub mod Files
pub mod Patterns
pub mod PublicApi
pub mod Exports
