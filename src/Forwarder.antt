-- ===== src/Forwarder.antt =====
-- The forwarder contract (forwarder/src).
pub mod Error
pub mod Reader
pub mod AccountId
pub mod Address
pub mod Promise
pub mod Borsh
pub mod Decimal
pub mod Json
pub mod Params
pub mod Host
pub mod Runtime
pub mod Contract
pub mod Safety
pub mod Lifecycle
pub mod Chain
pub mod Invariant
pub mod Flow
pub mod Fixtures
pub mod Tests
pub mod UnitTests
