-- ===== src/Engine.antt =====
-- engine: the consumers and groups of a configuration, and how a request is answered for them.
pub mod Consumers
pub mod Bootstrap
pub mod Groups
pub mod Handle
pub mod Entry
pub mod Counters
mod Tests
