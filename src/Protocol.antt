-- ===== src/Protocol.antt =====
-- The contracts together: the factory (factory/src/lib.rs), the forwarders that it creates
-- (forwarder/src/lib.rs) and the fees contract (fees/src/lib.rs).
pub mod Answers
pub mod Token
pub mod Native
pub mod Deploy
pub mod Create
pub mod Life
pub mod Fixtures
pub mod Tests
