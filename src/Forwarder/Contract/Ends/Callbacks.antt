-- ===== src/Forwarder/Contract/Ends/Callbacks.antt =====
-- How the callbacks (forwarder/src/lib.rs) end.

use aurora_forwarder_contrac.Base.{
  ℕ, ◌+◌, ◌-◌, ◌≤◌, ◌≡◌, inl, inr, refl, Option, none, some, Bytes, length, ok, trap, arith, ◌∙◌,
  le_or_gt,
}
use aurora_forwarder_contrac.Crates.{Crates, IsDocumented}
use aurora_forwarder_contrac.Forwarder.AccountId.{AccountId}
use aurora_forwarder_contrac.Forwarder.Contract.Errors.{
  IsFault, IsRead, IsSelfCall, Input, IsAdmitted, looks_at,
}
use aurora_forwarder_contrac.Forwarder.Contract.Exports.{Entry}
use aurora_forwarder_contrac.Forwarder.Contract.Fees.{fees-Schedules}
use aurora_forwarder_contrac.Forwarder.Contract.Finish.{reached, finish-goes_on}
use aurora_forwarder_contrac.Forwarder.Contract.Transfers.{
  transfers-whole, transfers-split, transfers-cut,
}
use aurora_forwarder_contrac.Forwarder.Contract.Private.{IsCallback}
use aurora_forwarder_contrac.Forwarder.Contract.Spec.{IsReady}
use aurora_forwarder_contrac.Forwarder.Decimal.{vec_to_number}
use aurora_forwarder_contrac.Forwarder.Decimal.Print.{decimal}
use aurora_forwarder_contrac.Forwarder.Host.Machine.{Machine, result_at}
use aurora_forwarder_contrac.Forwarder.Params.Valid.{
  read_forward_params-IsAccount, read_finish_params-lt, read_fee-lt,
}
use aurora_forwarder_contrac.Forwarder.Params.{
  State, ForwardParams, FinishForwardParams, try_from_slice,
}
use aurora_forwarder_contrac.Forwarder.Promise.{PromiseResult, successful, failed, not_ready}
use aurora_forwarder_contrac.Forwarder.Contract.Ends.{
  IsOrderly, CallEnds, goes_through, refuse, cut_off, good_or_bad, same_or_other, input_or_fault,
}

module _ {lib : Crates} (doc : IsDocumented lib) {self caller : AccountId} (m : Machine)
    (order : IsOrderly lib self caller m) where
  -- The amount of the fee query.
  pub balance_ends :
      (s : State) (p : ForwardParams) (v : Bytes)
      → IsRead lib self m Entry.calculate_fees_callback p
      → IsReady lib s self m
      → result_at m.results 0 ≡ some (successful v)
      → length v ≤ 256
      → CallEnds lib self m Entry.calculate_fees_callback
  balance_ends s p v r ready found short = elim (good_or_bad (vec_to_number v)) [
    | inr (x, bad) ↦
        refuse doc Entry.calculate_fees_callback _
          (IsFault.bad_balance s p v x r ready found short bad)
    | inl (amount, read) ↦
        let valid = read_forward_params-IsAccount doc m.input_bytes r.parsed in
        goes_through Entry.calculate_fees_callback
          (fees-Schedules doc m p v amount r ready valid found short read).holds.0
  ]

  -- The transfers.
  transfers_end :
      (s : State) (p : FinishForwardParams) (v : Bytes) (fee : ℕ)
      → IsRead lib self m Entry.finish_forward_callback p
      → IsReady lib s self m
      → result_at m.results p.promise_idx ≡ some (successful v)
      → length v ≤ 256
      → try_from_slice lib.read_u128 v ≡ ok fee
      → CallEnds lib self m Entry.finish_forward_callback
  transfers_end s p v fee r ready found short read =
      let fits = read_finish_params-lt doc m.input_bytes order.input_bytes r.parsed in
      let fee_fits = read_fee-lt doc v (order.result_bytes p.promise_idx v found) read in
      let n = reached lib s v m in
      elim (le_or_gt (length s.target_network.as_bytes + length (decimal (p.amount - fee))) 49) [
        | inr long ↦
            refuse doc Entry.finish_forward_callback trap
              (IsFault.long_transfer s p v fee r ready fits found short read long)
        | inl text ↦ elim (le_or_gt fee 0) [
          | inl none_due ↦ goes_through Entry.finish_forward_callback (
              (finish-goes_on doc m p v r ready found short read (
                transfers-whole doc s p fee n fits ready.state.address text
                  (omega (arith, none_due)))).holds.0)
          | inr due ↦
              elim (le_or_gt (length s.fees_contract_id.as_bytes + length (decimal fee)) 98) [
                | inl fee_text ↦ goes_through Entry.finish_forward_callback (
                    (finish-goes_on doc m p v r ready found short read (
                      transfers-split doc s p fee n fits ready.state.address text due fee_fits
                        fee_text)).holds.0)
                | inr long ↦
                    cut_off
                      (record {
                        state = s;
                        ready = ready;
                        params = p;
                        is_read = r;
                        fee_bytes = v;
                        found = found;
                        fee = fee;
                        fee_read = read;
                        long = long;
                      })
                      (finish-goes_on doc m p v r ready found short read (
                        transfers-cut doc s p fee n fits ready.state.address text due fee_fits
                          long)).holds
              ]
        ]
      ]

  pub fee_ends :
      (s : State) (p : FinishForwardParams) (v : Bytes)
      → IsRead lib self m Entry.finish_forward_callback p
      → IsReady lib s self m
      → result_at m.results p.promise_idx ≡ some (successful v)
      → length v ≤ 256
      → CallEnds lib self m Entry.finish_forward_callback
  fee_ends s p v r ready found short = elim (good_or_bad (try_from_slice lib.read_u128 v)) [
    | inl (fee, read) ↦ transfers_end s p v fee r ready found short read
    | inr (x, bad) ↦
        refuse doc Entry.finish_forward_callback _ (IsFault.bad_fee s p v x r ready found short bad)
  ]

  -- What a callback makes of the bytes of its promise result.
  abbrev UsesResult : Entry → Type 0
  UsesResult e =
      (s : State) (p : Input e) (v : Bytes)
      → IsRead lib self m e p
      → IsReady lib s self m
      → result_at m.results (looks_at e p) ≡ some (successful v)
      → length v ≤ 256
      → CallEnds lib self m e

  result_ends :
      (e : Entry)
      → IsCallback e
      → UsesResult e
      → (s : State) (p : Input e) → IsRead lib self m e p
      → IsReady lib s self m
      → (o : Option PromiseResult) → result_at m.results (looks_at e p) ≡ o
      → CallEnds lib self m e
  result_ends e c uses s p r ready none h = refuse doc e _ (IsFault.no_result e s p c r ready h)
  result_ends e c uses s p r ready (some not_ready) h =
      refuse doc e _ (IsFault.pending_result e s p c r ready h)
  result_ends e c uses s p r ready (some failed) h =
      refuse doc e _ (IsFault.failed_result e s p c r ready h)
  result_ends e c uses s p r ready (some (successful v)) h = elim (le_or_gt (length v) 256) [
    | inl short ↦ uses s p v r ready h short
    | inr long ↦
        refuse doc e trap
          (IsFault.long_result e s p v c r ready h long (order.result (looks_at e p) v h))
  ]

  pub callback_ends :
      (e : Entry)
      → IsCallback e
      → (IsSelfCall self m → IsAdmitted self m e)
      → UsesResult e
      → CallEnds lib self m e
  callback_ends e c admitted uses = elim (same_or_other caller.as_bytes self.as_bytes) [
    | inr other ↦ refuse doc e _ (
        IsFault.other_caller e caller c order.valid order.here order.caller_valid order.calls other)
    | inl own ↦
        elim (input_or_fault doc m order e (
          admitted
            (record { valid = order.valid; here = order.here; caller = order.calls ∙ own }))) [
              | inr ends ↦ ends
              | inl (p, r) ↦ elim order.stored [
                | inl absent ↦ refuse doc e _ (IsFault.no_state e p c r absent)
                | inr (s, ready) ↦
                    result_ends e c uses s p r ready (result_at m.results (looks_at e p)) refl
              ]
            ]
  ]
