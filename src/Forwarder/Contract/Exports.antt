-- ===== src/Forwarder/Contract/Exports.antt =====
-- The names that forwarder/src/lib.rs exports.
-- The exported functions of the contract.
pub data Entry : Type 0 where
  new : Entry
  forward : Entry
  calculate_fees_callback : Entry
  finish_forward_callback : Entry
  destroy : Entry
