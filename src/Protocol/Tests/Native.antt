-- ===== src/Protocol/Tests/Native.antt =====
-- The forward of native NEAR at concrete calls.

use mathlib.Core.Path.{subst}
use aurora_forwarder_contrac.Base.{
  ℕ, ◌+◌, ◌-◌, ◌≡◌, sym, ap, refl, ◌∙◌, length, List, [], ◌∷◌, ◌++◌, ◌==◌, if◌then◌else◌, arith,
}
use aurora_forwarder_contrac.Crates.Reference.{reference, reference-IsDocumented}
use aurora_forwarder_contrac.Fees.Fixtures.{by_number, readers, account_of, readers-AreDocumented}
use aurora_forwarder_contrac.Fees.Interface.{calculate_fees_call}
use aurora_forwarder_contrac.Forwarder.AccountId.Codec.{encoding}
use aurora_forwarder_contrac.Forwarder.Contract.Exports.{Entry}
use aurora_forwarder_contrac.Forwarder.Contract.Finish.{transfer_of, fee_transfer}
use aurora_forwarder_contrac.Forwarder.Contract.Native.{native_promises, native_fees, native_finish}
use aurora_forwarder_contrac.Forwarder.Fixtures.{
  aurora, wrap_near, owner_near, forwarder_near, native_near, native_near-IsAccount, address,
  state_for, in_place, in_place-IsSafe, made, forwarder_near-IsAccount,
}
use aurora_forwarder_contrac.Forwarder.Flow.{IsDelivery}
use aurora_forwarder_contrac.Forwarder.Flow.Native
use aurora_forwarder_contrac.Forwarder.Flow.Native.{IsNearBegin}
use aurora_forwarder_contrac.Forwarder.Flow.Token.{IsShort}
use aurora_forwarder_contrac.Forwarder.Host.Machine.{Machine, Promise}
use aurora_forwarder_contrac.Forwarder.Params.Layout.{fees_params_bytes, finish_params_bytes}
use aurora_forwarder_contrac.Forwarder.Promise.{PromiseResult, successful}
use aurora_forwarder_contrac.Forwarder.Safety.{Call, calls}
use aurora_forwarder_contrac.Forwarder.Lifecycle.History.{calls-IsReady}
use aurora_forwarder_contrac.Forwarder.Flow.Steps.{after}
use aurora_forwarder_contrac.Protocol.Answers.{result_of, fee_for}
use aurora_forwarder_contrac.Protocol.Native.{forward_near_whole}
use aurora_forwarder_contrac.Protocol.Fixtures.{
  stranger_destroys, stranger_refused, five_percent, nine-supported, fee-fifty, fifty-IsShort,
}

-- The results of a native forward: the wrap has nothing to say, and the fees contract answers.
abbrev near_results : ℕ → PromiseResult
near_results n =
    if n == 1
    then result_of (
        calculate_fees_call reference readers by_number five_percent
          (fees_params_bytes reference (native_fees (state_for aurora) 1000)))
    else successful []

abbrev forward_native : Call
forward_native = made Entry.forward owner_near 1 (encoding reference native_near) []

abbrev near_callback : Call
near_callback =
    made Entry.finish_forward_callback forwarder_near 2
      (finish_params_bytes reference (native_finish (state_for aurora) 1000))
      (near_results 0 ∷ near_results 1 ∷ [])

forward_native-begins : IsNearBegin reference 1000 forward_native
forward_native-begins = record {
  entry = refl;
  one_yocto = refl;
  token = native_near;
  token_valid = native_near-IsAccount;
  token_given = refl;
  is_near = refl;
  balance = refl;
  balance_fits = omega arith;
  some_left = omega arith;
}

abbrev near_log : List Promise
near_log = native_promises reference (state_for aurora) forwarder_near 1000 0

-- A stranger's call comes between.
native_log :
    (calls reference in_place (forward_native ∷ stranger_destroys ∷ [])).promises ≡ near_log
unfolding calls
native_log =
    ap (λ (m : Machine). m.promises)
      (stranger_refused (after reference in_place forward_native) (
        calls-IsReady reference-IsDocumented forwarder_near-IsAccount (state_for aurora) in_place
          (forward_native ∷ []) in_place-IsSafe.ready))
    ∙ Native.first_call reference-IsDocumented in_place forward_native in_place-IsSafe.ready
        forward_native-begins

native-IsDelivery :
    IsDelivery near_results
      (calls reference in_place (forward_native ∷ stranger_destroys ∷ [])).promises
      forwarder_near.as_bytes
      3
      near_callback
native-IsDelivery =
    subst (λ (l : List Promise). IsDelivery near_results l forwarder_near.as_bytes 3 near_callback)
      (sym native_log) (refl, refl, refl, refl, refl, refl)

abbrev near_fee : ℕ
near_fee = fee_for by_number account_of five_percent (state_for aurora) wrap_near 1000

near_fee-IsShort : IsShort (state_for aurora) 1000 near_fee
near_fee-IsShort =
    subst (IsShort (state_for aurora) 1000) (sym (fee-fifty 6 address.raw)) fifty-IsShort

abbrev near_waiting : Machine
near_waiting = calls reference in_place (forward_native ∷ stranger_destroys ∷ [])

forward_near_whole_example :
    ((calls reference in_place (forward_native ∷ [])).promises ≡ near_log)
    × ((calls reference near_waiting (near_callback ∷ [])).promises
        ≡ near_waiting.promises
          ++ transfer_of reference
              (state_for aurora)
              (native_finish (state_for aurora) 1000)
              near_fee
            ∷ fee_transfer
                (state_for aurora)
                (native_finish (state_for aurora) 1000)
                near_fee
                (length near_waiting.promises)
            ∷ [])
    × ((1000 - near_fee) + near_fee ≡ 1000)
forward_near_whole_example =
    forward_near_whole by_number reference-IsDocumented readers-AreDocumented near_results
      five_percent in_place forward_native near_callback (stranger_destroys ∷ [])
      in_place-IsSafe.ready forward_native-begins refl (omega arith) nine-supported refl
      near_fee-IsShort native-IsDelivery
