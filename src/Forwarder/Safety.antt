-- ===== src/Forwarder/Safety.antt =====
-- What a forwarder in place may ever schedule, and the calls that it gets (forwarder/src/lib.rs).
pub mod Runtime
pub mod Entries
pub mod History
use aurora_forwarder_contrac.Base.{
  ℕ, ◌≡◌, Option, none, some, List, [], ◌∷◌, Bytes, codes, All, Result, ok, err,
}
use aurora_forwarder_contrac.Base.Results.{Outcome}
use aurora_forwarder_contrac.Crates.{Crates}
use aurora_forwarder_contrac.Forwarder.AccountId.{AccountId}
use aurora_forwarder_contrac.Forwarder.Contract.{enter}
use aurora_forwarder_contrac.Forwarder.Contract.Constants.{
  calculate_fees_gas, near_deposit_gas, ft_balance_gas, ft_transfer_gas, ft_transfer_call_gas,
  calculate_fees_callback_gas, finish_forward_gas,
}
use aurora_forwarder_contrac.Forwarder.Contract.Exports.{Entry}
use aurora_forwarder_contrac.Forwarder.Contract.Spec.{IsReady}
use aurora_forwarder_contrac.Forwarder.Host.Machine.{
  Machine, machine, Promise, call, callback, joined, batch, Action, add_key, delete,
}
use aurora_forwarder_contrac.Forwarder.Json.{ft_transfer_call_args, ft_transfer_args}
use aurora_forwarder_contrac.Forwarder.Params.{State}
use aurora_forwarder_contrac.Forwarder.Promise.{PromiseResult}

-- The promises that a forwarder on the account `self` with the state `s` may schedule. Tokens move
-- only by a transfer to the target network for the target address, and by one to the fees contract;
-- NEAR leaves the account only for the wrap, and by the yoctoNEAR that a transfer needs.
pub data IsAllowed (lib : Crates) (s : State) (self : AccountId) : Promise → Type 0 where
  wrap :
      (amount : ℕ)
      → IsAllowed lib s self
          (call s.wnear_contract_id.as_bytes (codes "near_deposit") [] amount near_deposit_gas)
  ask_fees :
      (args : Bytes)
      → IsAllowed lib s self
          (call s.fees_contract_id.as_bytes (codes "calculate_fees") args 0 calculate_fees_gas)
  ask_balance :
      (token args : Bytes)
      → IsAllowed lib s self (call token (codes "ft_balance_of") args 0 ft_balance_gas)
  transfer_on :
      (token args : Bytes) (amount : ℕ)
      → ft_transfer_call_args lib s.target_network amount s.target_address ≡ ok args
      → IsAllowed lib s self (call token (codes "ft_transfer_call") args 1 ft_transfer_call_gas)
  transfer_fee :
      (n : ℕ) (token args : Bytes) (fee : ℕ)
      → ft_transfer_args lib s.fees_contract_id fee ≡ ok args
      → IsAllowed lib s self (callback n token (codes "ft_transfer") args 1 ft_transfer_gas)
  back_to_fees :
      (n : ℕ) (args : Bytes)
      → IsAllowed lib s self (
          callback n self.as_bytes
            (codes "calculate_fees_callback")
            args
            0
            calculate_fees_callback_gas)
  back_to_finish :
      (n : ℕ) (args : Bytes)
      → IsAllowed lib s self
          (callback n self.as_bytes (codes "finish_forward_callback") args 2 finish_forward_gas)
  join : (ids : List ℕ) → IsAllowed lib s self (joined ids)
  own_batch : IsAllowed lib s self (batch self.as_bytes)

-- The batch actions: the account may be deleted, in favour of its owner, and no key is added.
abbrev pub IsAllowedAction : State → Action → Type 0
IsAllowedAction s (add_key n public_key nonce) = ⊥
IsAllowedAction s (delete n beneficiary) = beneficiary ≡ s.owner_id.as_bytes

-- The contract is in place with the state `s`, and whatever it has scheduled is allowed.
pub record IsSafe (lib : Crates) (s : State) (self : AccountId) (m : Machine) : Type 0 where
  pub ready : IsReady lib s self m
  pub promises : All (IsAllowed lib s self) m.promises
  pub actions : All (IsAllowedAction s) m.actions

-- A call that the host makes, with all that its sender and the chain choose.
pub record Call : Type 0 where
  pub entry : Entry
  pub signer : Bytes
  pub predecessor : Bytes
  pub input_bytes : Bytes
  pub height : ℕ
  pub deposit : ℕ
  pub balance : ℕ
  pub results : List PromiseResult

-- The host before the call: no register is used.
abbrev pub receive : Call → Machine → Machine
receive c m = record m {
  registers = λ r. none;
  signer = c.signer;
  predecessor = c.predecessor;
  input_bytes = c.input_bytes;
  height = c.height;
  deposit = c.deposit;
  balance = c.balance;
  results = c.results;
  returned = none;
  output = none;
}

-- The host after a call: what a panic leaves behind is dropped.
abbrev pub settle : Machine → Outcome (Unit {0}) × Machine → Machine
settle m (ok _, m') = m'
settle m (err _, m') = m

-- Where a call is dropped, what held before it holds again.
pub settle_kept :
    (P : Machine → Type 0) (m : Machine) (o : Outcome (Unit {0}) × Machine)
    → P m
    → P o.1
    → P (settle m o)
settle_kept P m (ok _, m') before after = after
settle_kept P m (err _, m') before after = before

-- The calls in turn, while the account exists: they come before the host has carried out a deletion
-- that one of them may schedule. The promises and actions of all of them pile up.
unfoldable pub calls : Crates → Machine → List Call → Machine
calls lib m [] = m
calls lib m (c ∷ cs) = calls lib (settle m (enter machine lib c.entry (receive c m))) cs
