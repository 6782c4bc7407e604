-- ===== src/Rule.antt =====
-- rule: the stores that hold the rules of the lists and find the rule that matches a domain.
pub mod Assembled
pub mod Line
mod Tests
pub mod Base
pub mod Spec
pub mod Search
pub mod Fold
pub mod Memory
pub mod Hash
pub mod Hash32
pub mod Bloom
pub mod Complex
pub mod Load
pub mod Reloading
