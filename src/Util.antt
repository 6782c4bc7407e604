-- ===== src/Util.antt =====
-- util: the helpers that the rule stores, the resolvers and the engine share.
pub mod Strings
pub mod Domains
pub mod Dns
pub mod Time
mod Tests
