-- ===== src/Forwarder/Contract/Ends.antt =====
-- How a call of the forwarder (forwarder/src/lib.rs) ends on a host in order.
pub mod Begin
pub mod Callbacks
pub mod Complete
use aurora_forwarder_contrac.Forwarder.Contract.Errors.All.{fault-Refuses}
use aurora_forwarder_contrac.Forwarder.Params.Layout.{names_length}
use aurora_forwarder_contrac.Base.{
  ℕ, ◌+◌, ◌-◌, ◌^◌, ◌≤◌, ◌<◌, ◌≡◌, ◌≢◌, ◌⊎◌, inl, inr, refl, sym, Bool-cases, bytes_eq,
  bytes_eq_iff, Option, none, some, Bytes, length, Result, ok, err, Panic, trap, All, arith, ◌∙◌,
  le_or_gt,
}
use aurora_forwarder_contrac.Base.Results.{Outcome}
use aurora_forwarder_contrac.Crates.{Crates, IsDocumented, IsByte}
use aurora_forwarder_contrac.Forwarder.AccountId.{AccountId}
use aurora_forwarder_contrac.Forwarder.AccountId.Codec.{IsAccount}
use aurora_forwarder_contrac.Forwarder.Contract.{enter}
use aurora_forwarder_contrac.Forwarder.Contract.Constants.{minimum_balance, near}
use aurora_forwarder_contrac.Forwarder.Contract.Destroy.{destroy-owner}
use aurora_forwarder_contrac.Forwarder.Contract.Errors.{
  IsFault, IsRead, IsSelfCall, Input, parse_input, IsAdmitted, looks_at,
}
use aurora_forwarder_contrac.Forwarder.Contract.Exports.{Entry}
use aurora_forwarder_contrac.Forwarder.Contract.Fees.{fees-Schedules}
use aurora_forwarder_contrac.Forwarder.Contract.Finish.{reached, finish-goes_on}
use aurora_forwarder_contrac.Forwarder.Contract.Transfers.{
  transfers-whole, transfers-split, transfers-cut,
}
use aurora_forwarder_contrac.Forwarder.Contract.Forward.{nep141-Schedules}
use aurora_forwarder_contrac.Forwarder.Contract.Native.{native-Schedules}
use aurora_forwarder_contrac.Forwarder.Contract.Private.{IsCallback}
use aurora_forwarder_contrac.Forwarder.Contract.Spec.{IsReady, Schedules, set_register-IsReady}
use aurora_forwarder_contrac.Forwarder.Decimal.{vec_to_number}
use aurora_forwarder_contrac.Forwarder.Decimal.Print.{decimal}
use aurora_forwarder_contrac.Forwarder.Host.Lawful.{machine-IsLawful}
use aurora_forwarder_contrac.Forwarder.Host.Machine.{
  Machine, machine, Promise, Action, result_at, set_register,
}
use aurora_forwarder_contrac.Forwarder.Params.Valid.{
  read_state-IsState, read_forward_params-IsAccount, read_finish_params-lt, read_fee-lt,
}
use aurora_forwarder_contrac.Forwarder.Params.{
  State, ForwardParams, FinishForwardParams, state_storage_key, try_from_slice,
}
use aurora_forwarder_contrac.Forwarder.Promise.{PromiseResult, successful, failed, not_ready}
use aurora_forwarder_contrac.Forwarder.Runtime.Steps.{Ends}

-- The host as the chain sets it up: valid names, integers of their width, bytes, texts that can be
-- addressed, and a storage that holds no state or one that the contract has put there.
pub record IsOrderly (lib : Crates) (self caller : AccountId) (m : Machine) : Type 0 where
  pub valid : IsAccount self
  pub here : m.current ≡ self.as_bytes
  pub caller_valid : IsAccount caller
  pub calls : m.predecessor ≡ caller.as_bytes
  pub deposit : m.deposit < 2 ^ 128
  pub balance : m.balance < 2 ^ 128
  pub input : length m.input_bytes < 2 ^ 32
  pub input_bytes : All IsByte m.input_bytes
  pub result : (i : ℕ) (v : Bytes) → result_at m.results i ≡ some (successful v) → length v < 2 ^ 32
  pub result_bytes :
      (i : ℕ) (v : Bytes) → result_at m.results i ≡ some (successful v) → All IsByte v
  pub stored : (m.storage state_storage_key ≡ none) ⊎ ((s : State) × IsReady lib s self m)

-- The last callback in order up to the transfer of the fee, whose text does not fit.
pub record IsCutOff (lib : Crates) (self : AccountId) (m : Machine) : Type 0 where
  pub state : State
  pub ready : IsReady lib state self m
  pub params : FinishForwardParams
  pub is_read : IsRead lib self m Entry.finish_forward_callback params
  pub fee_bytes : Bytes
  pub found : result_at m.results params.promise_idx ≡ some (successful fee_bytes)
  pub fee : ℕ
  pub fee_read : try_from_slice lib.read_u128 fee_bytes ≡ ok fee
  pub long : 98 < length state.fees_contract_id.as_bytes + length (decimal fee)

-- How a call ends.
pub data CallEnds (lib : Crates) (self : AccountId) (m : Machine) : Entry → Type 0 where
  goes_through : (e : Entry) → (enter machine lib e m).0 ≡ ok tt → CallEnds lib self m e
  refused :
      (e : Entry) (p : Panic)
      → IsFault lib self m e p
      → (enter machine lib e m).0 ≡ err p
      → CallEnds lib self m e
  cut_off :
      IsCutOff lib self m
      → (enter machine lib Entry.finish_forward_callback m).0 ≡ err trap
      → CallEnds lib self m Entry.finish_forward_callback

-- A fault ends the call with its panic.
pub refuse :
    {lib : Crates} (doc : IsDocumented lib) {self : AccountId} {m : Machine} (e : Entry) (p : Panic)
    → IsFault lib self m e p
    → CallEnds lib self m e
refuse doc {self} {m} e p fault = refused e p fault (fault-Refuses doc self m fault).holds.0

-- A split on a length, a result, and two names.
pub good_or_bad : {E A : Type 0} (r : Result E A) → ((a : A) × (r ≡ ok a)) ⊎ ((e : E) × (r ≡ err e))
good_or_bad (ok a) = inl (a, refl)
good_or_bad (err e) = inr (e, refl)

pub same_or_other : (s t : Bytes) → (s ≡ t) ⊎ (s ≢ t)
same_or_other s t = ground (arith, bytes_eq_iff s t)

pub one_or_other : (n : ℕ) → (n ≡ 1) ⊎ (n ≢ 1)
one_or_other n = ground arith

module _ {lib : Crates} (doc : IsDocumented lib) {self caller : AccountId} (m : Machine)
    (order : IsOrderly lib self caller m) where
  -- An input that is admitted is read, or the call is refused.
  pub input_or_fault :
      (e : Entry)
      → IsAdmitted self m e
      → ((p : Input e) × IsRead lib self m e p) ⊎ CallEnds lib self m e
  input_or_fault e admitted = elim (le_or_gt (length m.input_bytes) 256) [
    | inr long ↦ inr (refuse doc e trap (IsFault.long_input e admitted long order.input))
    | inl short ↦ elim (good_or_bad (parse_input lib e m.input_bytes)) [
      | inl (p, parsed) ↦ inl (p, record { admitted = admitted; short = short; parsed = parsed })
      | inr (x, unread) ↦ inr (refuse doc e _ (IsFault.bad_input e x admitted short unread))
    ]
  ]
