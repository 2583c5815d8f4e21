-- ===== src/Forwarder/Host.antt =====
-- The host functions of NEAR that forwarder/src/runtime/sys.rs declares, as far as the runtime
-- calls them. Their code is not in the repository: a host is a parameter. A pointer and a length
-- are the bytes they span.
pub mod Machine
pub mod Lawful
use aurora_forwarder_contrac.Base.{ℕ, Option, List, Bytes}

pub record Host : Type 1 where
  pub World : Type 0
  -- registers
  pub read_register : ℕ → World → Bytes
  pub register_len : ℕ → World → ℕ
  -- context
  pub current_account_id : ℕ → World → World
  pub signer_account_id : ℕ → World → World
  pub predecessor_account_id : ℕ → World → World
  pub input : ℕ → World → World
  pub block_index : World → ℕ
  -- the sixteen bytes that are written at `balance_ptr`
  pub account_balance : World → Bytes
  pub attached_deposit : World → Bytes
  pub value_return : Bytes → World → World
  -- promises: account, method, arguments, amount, gas
  pub promise_create : Bytes → Bytes → Bytes → ℕ → ℕ → World → ℕ × World
  pub promise_then : ℕ → Bytes → Bytes → Bytes → ℕ → ℕ → World → ℕ × World
  pub promise_and : List ℕ → World → ℕ × World
  pub promise_batch_create : Bytes → World → ℕ × World
  pub add_key_with_full_access : ℕ → Bytes → ℕ → World → World
  pub delete_account : ℕ → Bytes → World → World
  -- with no answer where the host stops the call, for there is no such result
  pub promise_result : ℕ → ℕ → World → Option ℕ × World
  pub promise_return : ℕ → World → World
  -- storage: key, value, register for the evicted value
  pub storage_write : Bytes → Bytes → ℕ → World → ℕ × World
  -- the same with the value taken from a register, which a length of `u64::MAX` asks for
  pub storage_write_register : Bytes → ℕ → ℕ → World → ℕ × World
  pub storage_read : Bytes → ℕ → World → ℕ × World
  pub storage_remove : Bytes → ℕ → World → ℕ × World
  pub storage_has_key : Bytes → World → ℕ
