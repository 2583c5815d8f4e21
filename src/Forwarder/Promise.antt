-- ===== src/Forwarder/Promise.antt =====
-- forwarder/src/types/promise.rs: what the contract asks the host to schedule.
use aurora_forwarder_contrac.Base.{ℕ, List, Bytes}
use aurora_forwarder_contrac.Forwarder.AccountId.{AccountId}

pub record PromiseCreateArgs : Type 0 where
  pub target_account_id : AccountId
  pub method : Bytes
  pub args : Bytes
  pub attached_balance : ℕ
  pub attached_gas : ℕ

pub record PromiseWithCallbackArgs : Type 0 where
  pub base : PromiseCreateArgs
  pub callback : PromiseCreateArgs

pub data PromiseAction : Type 0 where
  add_full_access_key : Bytes → ℕ → PromiseAction
  delete_account : AccountId → PromiseAction

pub record PromiseBatchAction : Type 0 where
  pub target_account_id : AccountId
  pub actions : List PromiseAction

pub data PromiseResult : Type 0 where
  successful : Bytes → PromiseResult
  failed : PromiseResult
  not_ready : PromiseResult
