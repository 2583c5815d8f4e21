-- ===== src/Protocol/Tests.antt =====
-- The theorems on the contracts together at concrete calls.
pub mod Token
pub mod Native
pub mod Deploy
pub mod Life
