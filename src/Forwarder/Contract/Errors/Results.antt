-- ===== src/Forwarder/Contract/Errors/Results.antt =====
-- The callbacks (forwarder/src/lib.rs) on a promise result that they cannot use.
use aurora_forwarder_contrac.Base.{
  ◌^◌, ◌≤◌, ◌<◌, ◌≡◌, refl, ap, none, some, Bytes, codes, length, err, map_err, utf8, trap, stopped,
}
use aurora_forwarder_contrac.Crates.{Crates, IsDocumented, IoError}
use aurora_forwarder_contrac.Forwarder.AccountId.{AccountId}
use aurora_forwarder_contrac.Forwarder.Contract.{
  calculate_fees_callback, finish_forward_callback, balance_of_result, fee_of_result, enter,
}
use aurora_forwarder_contrac.Forwarder.Contract.Errors.{Input, looks_at, IsRead}
use aurora_forwarder_contrac.Forwarder.Contract.Exports.{Entry}
use aurora_forwarder_contrac.Forwarder.Contract.Private.{IsCallback}
use aurora_forwarder_contrac.Forwarder.Contract.Spec.{IsReady, Refuses}
use aurora_forwarder_contrac.Forwarder.Decimal.{vec_to_number}
use aurora_forwarder_contrac.Forwarder.Error.{ContractError, borsh_deserialize_error, message}
use aurora_forwarder_contrac.Forwarder.Host.Machine.{Machine, machine, result_at}
use aurora_forwarder_contrac.Forwarder.Params.{State, try_from_slice}
use aurora_forwarder_contrac.Forwarder.Promise.{successful, failed, not_ready}
use aurora_forwarder_contrac.Forwarder.Runtime.Run.{
  promise_result-none, promise_result-full, promise_result-failed, promise_result-pending,
  promise_result-successful,
}
use aurora_forwarder_contrac.Forwarder.Runtime.Steps.{
  Ends, step, stop, expect-run, panic_utf8-run, unwrap_bad-run,
}
use aurora_forwarder_contrac.Forwarder.Contract.Errors.Callbacks.{callback-goes_on}

module _ {lib : Crates} (doc : IsDocumented lib) {self : AccountId} (m : Machine) where
  pub callback-no_result :
      (e : Entry) {s : State} (p : Input e)
      → IsCallback e
      → IsRead lib self m e p
      → IsReady lib s self m
      → result_at m.results (looks_at e p) ≡ none
      → Ends (Refuses m stopped) (enter machine lib e m)
  unfolding enter calculate_fees_callback finish_forward_callback
  callback-no_result Entry.calculate_fees_callback p c r ready absent =
      callback-goes_on doc _ _ m r.admitted r.short r.parsed ready
        (stop _ _ (promise_result-none 0 _ absent) (refl, refl, refl, refl, refl))
  callback-no_result Entry.finish_forward_callback p c r ready absent =
      callback-goes_on doc _ _ m r.admitted r.short r.parsed ready
        (stop _ _ (promise_result-none p.promise_idx _ absent) (refl, refl, refl, refl, refl))
  callback-no_result Entry.new _ c _ _ _ = absurd c
  callback-no_result Entry.forward _ c _ _ _ = absurd c
  callback-no_result Entry.destroy _ c _ _ _ = absurd c

  pub callback-long_result :
      (e : Entry) {s : State} (p : Input e) (v : Bytes)
      → IsCallback e
      → IsRead lib self m e p
      → IsReady lib s self m
      → result_at m.results (looks_at e p) ≡ some (successful v)
      → 256 < length v
      → length v < 2 ^ 32
      → Ends (Refuses m trap) (enter machine lib e m)
  unfolding enter calculate_fees_callback finish_forward_callback
  callback-long_result Entry.calculate_fees_callback p v c r ready found long addressable =
      callback-goes_on doc _ _ m r.admitted r.short r.parsed ready
        (stop _ _ (promise_result-full 0 v _ found long addressable) (refl, refl, refl, refl, refl))
  callback-long_result Entry.finish_forward_callback p v c r ready found long addressable =
      callback-goes_on doc _ _ m r.admitted r.short r.parsed ready (
        stop _ _ (promise_result-full p.promise_idx v _ found long addressable)
          (refl, refl, refl, refl, refl))
  callback-long_result Entry.new _ _ c _ _ _ _ _ = absurd c
  callback-long_result Entry.forward _ _ c _ _ _ _ _ = absurd c
  callback-long_result Entry.destroy _ _ c _ _ _ _ _ = absurd c

  pub callback-failed_result :
      (e : Entry) {s : State} (p : Input e)
      → IsCallback e
      → IsRead lib self m e p
      → IsReady lib s self m
      → result_at m.results (looks_at e p) ≡ some failed
      → Ends (Refuses m (utf8 (codes "FEE RESULT IS NOT READY"))) (enter machine lib e m)
  unfolding enter calculate_fees_callback finish_forward_callback balance_of_result fee_of_result
  callback-failed_result Entry.calculate_fees_callback p c r ready found =
      callback-goes_on doc _ _ m r.admitted r.short r.parsed ready (
        step _ _ (promise_result-failed 0 _ found) (
          step _ _ (expect-run _ _ _)
            (stop _ _ (panic_utf8-run _ _) (refl, refl, refl, refl, refl))))
  callback-failed_result Entry.finish_forward_callback p c r ready found =
      callback-goes_on doc _ _ m r.admitted r.short r.parsed ready (
        step _ _ (promise_result-failed p.promise_idx _ found) (
          step _ _ (expect-run _ _ _)
            (stop _ _ (panic_utf8-run _ _) (refl, refl, refl, refl, refl))))
  callback-failed_result Entry.new _ c _ _ _ = absurd c
  callback-failed_result Entry.forward _ c _ _ _ = absurd c
  callback-failed_result Entry.destroy _ c _ _ _ = absurd c

  pub callback-pending_result :
      (e : Entry) {s : State} (p : Input e)
      → IsCallback e
      → IsRead lib self m e p
      → IsReady lib s self m
      → result_at m.results (looks_at e p) ≡ some not_ready
      → Ends (Refuses m (utf8 (codes "FEE RESULT IS NOT READY"))) (enter machine lib e m)
  unfolding enter calculate_fees_callback finish_forward_callback balance_of_result fee_of_result
  callback-pending_result Entry.calculate_fees_callback p c r ready found =
      callback-goes_on doc _ _ m r.admitted r.short r.parsed ready (
        step _ _ (promise_result-pending 0 _ found) (
          step _ _ (expect-run _ _ _)
            (stop _ _ (panic_utf8-run _ _) (refl, refl, refl, refl, refl))))
  callback-pending_result Entry.finish_forward_callback p c r ready found =
      callback-goes_on doc _ _ m r.admitted r.short r.parsed ready (
        step _ _ (promise_result-pending p.promise_idx _ found) (
          step _ _ (expect-run _ _ _)
            (stop _ _ (panic_utf8-run _ _) (refl, refl, refl, refl, refl))))
  callback-pending_result Entry.new _ c _ _ _ = absurd c
  callback-pending_result Entry.forward _ c _ _ _ = absurd c
  callback-pending_result Entry.destroy _ c _ _ _ = absurd c

  pub callback-bad_balance :
      {s : State} (p : Input Entry.calculate_fees_callback) (v : Bytes) {x : ContractError}
      → IsRead lib self m Entry.calculate_fees_callback p
      → IsReady lib s self m
      → result_at m.results 0 ≡ some (successful v)
      → length v ≤ 256
      → vec_to_number v ≡ err x
      → Ends (Refuses m (utf8 (message x))) (enter machine lib Entry.calculate_fees_callback m)
  unfolding enter calculate_fees_callback balance_of_result
  callback-bad_balance p v {x} r ready found short bad =
      callback-goes_on doc _ _ m r.admitted r.short r.parsed ready (
        step _ _ (promise_result-successful 0 v _ found short) (
          step _ _ (expect-run _ _ _)
            (stop _ _ (unwrap_bad-run _ bad) (refl, refl, refl, refl, refl))))

  pub callback-bad_fee :
      {s : State} (p : Input Entry.finish_forward_callback) (v : Bytes) {x : IoError}
      → IsRead lib self m Entry.finish_forward_callback p
      → IsReady lib s self m
      → result_at m.results p.promise_idx ≡ some (successful v)
      → length v ≤ 256
      → try_from_slice lib.read_u128 v ≡ err x
      → Ends
          (Refuses m (utf8 (codes "ERR_BORCH_DESERIALIZE")))
          (enter machine lib Entry.finish_forward_callback m)
  unfolding enter finish_forward_callback fee_of_result
  callback-bad_fee p v {x} r ready found short bad =
      callback-goes_on doc _ _ m r.admitted r.short r.parsed ready (
        step _ _ (promise_result-successful p.promise_idx v _ found short) (
          step _ _ (expect-run _ _ _) (
            stop _ _ (unwrap_bad-run _ (ap (map_err (λ _. borsh_deserialize_error)) bad))
              (refl, refl, refl, refl, refl))))
