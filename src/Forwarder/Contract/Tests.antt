-- ===== src/Forwarder/Contract/Tests.antt =====
-- The theorems on the entry points at concrete calls.

use aurora_forwarder_contrac.Forwarder.Contract.Ends.Complete.{enter-CallEnds}
use aurora_forwarder_contrac.Forwarder.Contract.Ends.{IsOrderly, CallEnds}
use aurora_forwarder_contrac.Base.{
  ◌-◌, ◌≡◌, ◌≢◌, refl, some, [], ◌∷◌, Bytes, codes, length, ok, utf8, trap, is_utf8, arith, inr,
}
use aurora_forwarder_contrac.Crates.Reference.{reference, reference-IsDocumented}
use aurora_forwarder_contrac.Forwarder.AccountId.{AccountId}
use aurora_forwarder_contrac.Forwarder.AccountId.Codec.{encoding}
use aurora_forwarder_contrac.Forwarder.Contract.{enter}
use aurora_forwarder_contrac.Forwarder.Contract.Constants.{minimum_balance, near, updater_pk}
use aurora_forwarder_contrac.Forwarder.Contract.Errors.{IsRead, IsFault}
use aurora_forwarder_contrac.Forwarder.Contract.Errors.All.{enter-Refuses}
use aurora_forwarder_contrac.Forwarder.Contract.Destroy.{destroy-owner, destroy-other}
use aurora_forwarder_contrac.Forwarder.Contract.Exports.{Entry}
use aurora_forwarder_contrac.Forwarder.Contract.Fees.{fees_promises, calculate_fees_callback-fees}
use aurora_forwarder_contrac.Forwarder.Contract.Finish.{
  transfer_of, fee_transfer, finish-split, finish-whole, finish-too_long,
}
use aurora_forwarder_contrac.Forwarder.Contract.Forward.{
  token_promises, forward-near, forward-token,
}
use aurora_forwarder_contrac.Forwarder.Contract.Init.{stored_state, new-stores, new-too_long}
use aurora_forwarder_contrac.Forwarder.Contract.Native.{native_promises}
use aurora_forwarder_contrac.Forwarder.Contract.Private.{callback-private}
use aurora_forwarder_contrac.Forwarder.Contract.Spec.{Schedules, Refuses, IsReady}
use aurora_forwarder_contrac.Forwarder.Decimal.{vec_to_number}
use aurora_forwarder_contrac.Forwarder.Decimal.Print.{decimal, digits}
use aurora_forwarder_contrac.Forwarder.Fixtures.{
  aurora, owner_near, usdt_near, forwarder_near, native_near, long_name, aurora-IsAccount,
  owner_near-IsAccount, usdt_near-IsAccount, forwarder_near-IsAccount, native_near-IsAccount,
  long_name-IsAccount, state_for, state_for-IsState, long_state, long_state-IsState, fresh,
  deployed, deployed-IsReady, finish_params, finishing, finishing-IsFinish, in_place,
  in_place-IsSafe,
}
use aurora_forwarder_contrac.Forwarder.Host.Lawful.{seen, machine-IsLawful}
use aurora_forwarder_contrac.Forwarder.Host.Machine.{Machine, machine, batch, delete, add_key}
use aurora_forwarder_contrac.Forwarder.Params.Layout.{
  state_bytes, finish_params_bytes, length-finish_params_bytes,
}
use aurora_forwarder_contrac.Forwarder.Params.RoundTrip.{read_finish_params-bytes}
use aurora_forwarder_contrac.Forwarder.Promise.{successful, failed}

abbrev me : Machine → Machine
me m = m

-- The digits of the amounts that are used.
decimal-small : (length (decimal 950) ≡ 3) × (length (decimal 1000) ≡ 4) × (length (decimal 50) ≡ 2)
unfolding decimal digits
decimal-small = (refl, refl, refl)

finish-split_example :
    Schedules
      (finishing aurora 50)
      (transfer_of reference (state_for aurora) finish_params 50
        ∷ fee_transfer (state_for aurora) finish_params 50 0
        ∷ [])
      []
      1
      (seen me (enter machine reference Entry.finish_forward_callback (finishing aurora 50)))
finish-split_example =
    finish-split machine-IsLawful reference-IsDocumented (finishing aurora 50)
      (finishing-IsFinish aurora 50 aurora-IsAccount (omega arith)) (omega arith)
      (omega (arith, decimal-small)) (omega (arith, decimal-small))

finish-whole_example :
    Schedules
      (finishing aurora 0)
      (transfer_of reference (state_for aurora) finish_params 0 ∷ [])
      []
      0
      (seen me (enter machine reference Entry.finish_forward_callback (finishing aurora 0)))
finish-whole_example =
    finish-whole machine-IsLawful reference-IsDocumented (finishing aurora 0)
      (finishing-IsFinish aurora 0 aurora-IsAccount (omega arith)) refl
      (omega (arith, decimal-small))

abbrev failed_call : Machine
failed_call = record (finishing aurora 50) { results = failed ∷ [] }

failed_call-IsReady : IsReady reference (state_for aurora) forwarder_near failed_call
failed_call-IsReady =
    deployed-IsReady aurora forwarder_near 0 (finish_params_bytes reference finish_params)
      (failed ∷ []) aurora-IsAccount

failed_call-IsRead :
    IsRead reference forwarder_near failed_call Entry.finish_forward_callback finish_params
failed_call-IsRead = record {
  admitted = record { valid = forwarder_near-IsAccount; here = refl; caller = refl };
  short = omega (arith, length-finish_params_bytes reference-IsDocumented finish_params);
  parsed =
      read_finish_params-bytes reference-IsDocumented finish_params (omega arith)
        usdt_near-IsAccount (omega arith);
}

enter-Refuses_example :
    Refuses failed_call
      (utf8 (codes "FEE RESULT IS NOT READY"))
      (seen me (enter machine reference Entry.finish_forward_callback failed_call))
enter-Refuses_example = enter-Refuses machine-IsLawful reference-IsDocumented failed_call (
    IsFault.failed_result Entry.finish_forward_callback (state_for aurora) finish_params tt
      failed_call-IsRead failed_call-IsReady refl)

in_place-IsOrderly : IsOrderly reference forwarder_near owner_near in_place
in_place-IsOrderly = record {
  valid = forwarder_near-IsAccount;
  here = refl;
  caller_valid = owner_near-IsAccount;
  calls = refl;
  deposit = omega arith;
  balance = omega arith;
  input = omega arith;
  input_bytes = tt;
  result = λ i v h. absurd cc;
  result_bytes = λ i v h. absurd cc;
  stored = inr (state_for aurora, in_place-IsSafe.ready);
}

enter-CallEnds_example : CallEnds reference forwarder_near in_place Entry.destroy
enter-CallEnds_example =
    enter-CallEnds reference-IsDocumented in_place in_place-IsOrderly Entry.destroy

finish-too_long_example :
    Refuses
      (finishing long_name 50)
      trap
      (seen me (enter machine reference Entry.finish_forward_callback (finishing long_name 50)))
finish-too_long_example =
    finish-too_long machine-IsLawful reference-IsDocumented (finishing long_name 50)
      (finishing-IsFinish long_name 50 long_name-IsAccount (omega arith))
      (omega (arith, decimal-small))

abbrev forward_near_call : Machine
forward_near_call = deployed (state_for aurora) owner_near 1 (encoding reference native_near) []

forward-near_example :
    Schedules forward_near_call
      (native_promises reference
        (state_for aurora)
        forwarder_near
        (310_000_000_000_000_000_000_007 - minimum_balance)
        0)
      []
      3
      (seen me (enter machine reference Entry.forward forward_near_call))
forward-near_example =
    forward-near machine-IsLawful reference-IsDocumented forward_near_call
      (deployed-IsReady aurora owner_near 1 _ _ aurora-IsAccount) refl native_near-IsAccount refl
      refl (omega arith) (omega arith)

usdt-near : usdt_near.as_bytes ≢ near
usdt-near h = cc

abbrev forward_token_call : Machine
forward_token_call = fresh owner_near 1 (encoding reference usdt_near) []

forward-token_example :
    Schedules forward_token_call
      (token_promises reference usdt_near forwarder_near 0)
      []
      1
      (seen me (enter machine reference Entry.forward forward_token_call))
forward-token_example =
    forward-token machine-IsLawful reference-IsDocumented forward_token_call
      forwarder_near-IsAccount refl refl usdt_near-IsAccount refl usdt-near

abbrev balance_result : Bytes
balance_result = codes "\"1000\""

balance_result-read : vec_to_number balance_result ≡ ok 1000
unfolding vec_to_number is_utf8
balance_result-read = refl

abbrev fees_callback_call : Machine
fees_callback_call =
    deployed (state_for aurora) forwarder_near 0 (encoding reference usdt_near)
      (successful balance_result ∷ [])

calculate_fees_callback-fees_example :
    Schedules fees_callback_call
      (fees_promises reference (state_for aurora) forwarder_near usdt_near 1000 0)
      []
      1
      (seen me (enter machine reference Entry.calculate_fees_callback fees_callback_call))
calculate_fees_callback-fees_example =
    calculate_fees_callback-fees machine-IsLawful reference-IsDocumented fees_callback_call
      usdt_near balance_result 1000 (deployed-IsReady aurora forwarder_near 0 _ _ aurora-IsAccount)
      refl usdt_near-IsAccount refl refl (omega arith) balance_result-read

owner-other : usdt_near.as_bytes ≢ owner_near.as_bytes
owner-other h = cc

usdt-forwarder : usdt_near.as_bytes ≢ forwarder_near.as_bytes
usdt-forwarder h = cc

callback-private_example :
    Refuses
      (fresh usdt_near 0 [] [])
      (utf8 (codes "ERR_PRIVATE_CALL"))
      (seen me (enter machine reference Entry.finish_forward_callback (fresh usdt_near 0 [] [])))
callback-private_example =
    callback-private machine-IsLawful reference-IsDocumented (fresh usdt_near 0 [] [])
      Entry.finish_forward_callback tt forwarder_near-IsAccount refl usdt_near-IsAccount refl
      usdt-forwarder

abbrev call_by : AccountId → Machine
call_by caller = deployed (state_for aurora) caller 0 [] []

destroy-owner_example :
    Schedules
      (call_by owner_near)
      (batch forwarder_near.as_bytes ∷ [])
      (delete 0 owner_near.as_bytes ∷ [])
      0
      (seen me (enter machine reference Entry.destroy (call_by owner_near)))
destroy-owner_example =
    destroy-owner machine-IsLawful reference-IsDocumented (call_by owner_near)
      (deployed-IsReady aurora owner_near 0 _ _ aurora-IsAccount) owner_near-IsAccount refl refl

destroy-other_example :
    Refuses
      (call_by usdt_near)
      (utf8 (codes "ONLY OWNER CAN DESTROY"))
      (seen me (enter machine reference Entry.destroy (call_by usdt_near)))
destroy-other_example =
    destroy-other machine-IsLawful reference-IsDocumented (call_by usdt_near)
      (deployed-IsReady aurora usdt_near 0 _ _ aurora-IsAccount) usdt_near-IsAccount refl
      owner-other

abbrev new_call : Machine
new_call = fresh owner_near 0 (state_bytes reference (state_for aurora)) []

new-stores_example :
    let (r, m') = seen me (enter machine reference Entry.new new_call) in
    (r ≡ ok tt)
    × (m'.storage ≡ stored_state reference (state_for aurora) new_call)
    × (m'.promises ≡ batch forwarder_near.as_bytes ∷ [])
    × (m'.actions ≡ add_key 0 updater_pk 0 ∷ [])
    × (m'.returned ≡ some 0)
    × (m'.current ≡ forwarder_near.as_bytes)
new-stores_example =
    new-stores machine-IsLawful reference-IsDocumented new_call (state_for aurora)
      forwarder_near-IsAccount refl (state_for-IsState aurora aurora-IsAccount) (omega arith) refl
      refl

abbrev long_call : Machine
long_call = fresh owner_near 0 (state_bytes reference long_state) []

new-too_long_example :
    Refuses long_call trap (seen me (enter machine reference Entry.new long_call))
new-too_long_example =
    new-too_long machine-IsLawful reference-IsDocumented long_call long_state long_state-IsState
      (omega arith) refl refl
