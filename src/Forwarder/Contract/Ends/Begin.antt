-- ===== src/Forwarder/Contract/Ends/Begin.antt =====
-- How `new`, `forward` and `destroy` (forwarder/src/lib.rs) end.
use aurora_forwarder_contrac.Forwarder.Params.Layout.{names_length}
use aurora_forwarder_contrac.Base.{◌≡◌, ◌≢◌, inl, inr, trap, le_or_gt}
use aurora_forwarder_contrac.Crates.{Crates, IsDocumented}
use aurora_forwarder_contrac.Forwarder.AccountId.{AccountId}
use aurora_forwarder_contrac.Forwarder.Contract.Constants.{minimum_balance, near}
use aurora_forwarder_contrac.Forwarder.Contract.Destroy.{destroy-owner}
use aurora_forwarder_contrac.Forwarder.Contract.Errors.{IsFault, IsRead}
use aurora_forwarder_contrac.Forwarder.Contract.Errors.Begin
use aurora_forwarder_contrac.Forwarder.Contract.Exports.{Entry}
use aurora_forwarder_contrac.Forwarder.Contract.Forward.{nep141-Schedules}
use aurora_forwarder_contrac.Forwarder.Contract.Native.{native-Schedules}
use aurora_forwarder_contrac.Forwarder.Contract.Spec.{set_register-IsReady}
use aurora_forwarder_contrac.Forwarder.Host.Lawful.{machine-IsLawful}
use aurora_forwarder_contrac.Forwarder.Host.Machine.{Machine, set_register}
use aurora_forwarder_contrac.Forwarder.Params.Valid.{
  read_state-IsState, read_forward_params-IsAccount,
}
use aurora_forwarder_contrac.Forwarder.Params.{State, ForwardParams}
use aurora_forwarder_contrac.Forwarder.Contract.Ends.{
  IsOrderly, CallEnds, goes_through, refuse, same_or_other, one_or_other, input_or_fault,
}

module _ {lib : Crates} (doc : IsDocumented lib) {self caller : AccountId} (m : Machine)
    (order : IsOrderly lib self caller m) where
  new_read : (s : State) → IsRead lib self m Entry.new s → CallEnds lib self m Entry.new
  new_read s r =
      let valid = read_state-IsState doc m.input_bytes r.parsed in
      elim (le_or_gt (names_length s) 220) [
        | inr long ↦ refuse doc Entry.new trap (IsFault.long_state s r valid long)
        | inl fits ↦
            goes_through Entry.new
              (Begin.new-goes_through doc m r valid fits order.valid order.here).holds
      ]

  pub new_ends : CallEnds lib self m Entry.new
  new_ends = elim order.stored [
    | inr (s, ready) ↦ refuse doc Entry.new _ (IsFault.initialized s ready)
    | inl absent ↦ elim (input_or_fault doc m order Entry.new absent) [
      | inl (s, r) ↦ new_read s r
      | inr ends ↦ ends
    ]
  ]

  native_ends :
      (p : ForwardParams)
      → IsRead lib self m Entry.forward p
      → p.token_id.as_bytes ≡ near
      → CallEnds lib self m Entry.forward
  native_ends p r native = elim (le_or_gt m.balance minimum_balance) [
    | inl low ↦ refuse doc Entry.forward trap (IsFault.low_balance p r native low)
    | inr enough ↦ elim order.stored [
      | inl absent ↦
          refuse doc Entry.forward trap
            (IsFault.no_state_native p r native order.balance enough absent)
      | inr (s, ready) ↦ goes_through Entry.forward (
          (Begin.forward-to_native m r native (
            native-Schedules doc (set_register 1 m.input_bytes m)
              (set_register-IsReady 1 m.input_bytes ready) order.balance enough)).holds.0)
    ]
  ]

  token_ends :
      (p : ForwardParams)
      → IsRead lib self m Entry.forward p
      → p.token_id.as_bytes ≢ near
      → CallEnds lib self m Entry.forward
  token_ends p r other =
      let valid = read_forward_params-IsAccount doc m.input_bytes r.parsed in
      goes_through Entry.forward (
        (Begin.forward-to_token m r other (
          nep141-Schedules doc p.token_id self (set_register 1 m.input_bytes m) valid order.valid
            order.here)).holds.0)

  pub forward_ends : CallEnds lib self m Entry.forward
  forward_ends = elim (one_or_other m.deposit) [
    | inr other ↦ refuse doc Entry.forward _ (IsFault.no_yocto order.deposit other)
    | inl one ↦ elim (input_or_fault doc m order Entry.forward one) [
      | inr ends ↦ ends
      | inl (p, r) ↦ elim (same_or_other p.token_id.as_bytes near) [
        | inl native ↦ native_ends p r native
        | inr other ↦ token_ends p r other
      ]
    ]
  ]

  pub destroy_ends : CallEnds lib self m Entry.destroy
  destroy_ends = elim order.stored [
    | inl absent ↦ refuse doc Entry.destroy _ (IsFault.no_state_destroy absent)
    | inr (s, ready) ↦ elim (same_or_other caller.as_bytes s.owner_id.as_bytes) [
      | inl owns ↦
          goes_through Entry.destroy
            (destroy-owner machine-IsLawful doc m ready order.caller_valid order.calls owns).0
      | inr stranger ↦
          refuse doc Entry.destroy _
            (IsFault.not_owner s caller ready order.caller_valid order.calls stranger)
    ]
  ]
