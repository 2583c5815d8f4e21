-- ===== src/Forwarder/Chain/Destroy.antt =====
-- A call of `destroy` by the owner, and its deletion (forwarder/src/lib.rs).
use aurora_forwarder_contrac.Crates.{Crates}
use aurora_forwarder_contrac.Forwarder.AccountId.{AccountId}
use aurora_forwarder_contrac.Forwarder.Host.Machine.{Machine}
