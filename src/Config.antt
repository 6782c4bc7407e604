-- ===== src/Config.antt =====
-- config: the configuration records and how they are completed.
pub mod Lists
pub mod Groups
pub mod Names
pub mod Settings
pub mod Init
mod Tests
