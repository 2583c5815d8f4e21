-- ===== src/Protocol/Tests/Token.antt =====
-- The forward of a token at concrete calls.
use aurora_forwarder_contrac.Forwarder.Contract.Spec.{IsReady}
use mathlib.Core.Path.{subst}
use aurora_forwarder_contrac.Base.{
  ℕ, ◌+◌, ◌-◌, ◌≡◌, ◌≢◌, sym, ap, refl, ◌∙◌, List, [], ◌∷◌, ◌++◌, Bytes, codes, length, ok, ◌==◌,
  if◌then◌else◌, is_utf8, arith,
}
use aurora_forwarder_contrac.Crates.Reference.{reference, reference-IsDocumented}
use aurora_forwarder_contrac.Fees.Fixtures.{by_number, readers, account_of, readers-AreDocumented}
use aurora_forwarder_contrac.Fees.Interface.{calculate_fees_call}
use aurora_forwarder_contrac.Forwarder.AccountId.Codec.{encoding}
use aurora_forwarder_contrac.Forwarder.Contract.Constants.{near}
use aurora_forwarder_contrac.Forwarder.Contract.Exports.{Entry}
use aurora_forwarder_contrac.Forwarder.Contract.Fees.{fees_promises, token_finish, token_fees}
use aurora_forwarder_contrac.Forwarder.Contract.Finish.{transfer_of, fee_transfer}
use aurora_forwarder_contrac.Forwarder.Contract.Forward.{token_promises}
use aurora_forwarder_contrac.Forwarder.Decimal.{vec_to_number}
use aurora_forwarder_contrac.Forwarder.Fixtures.{
  aurora, owner_near, usdt_near, forwarder_near, usdt_near-IsAccount, address, state_for, in_place,
  in_place-IsSafe, made, forwarder_near-IsAccount,
}
use aurora_forwarder_contrac.Forwarder.Flow.{IsDelivery}
use aurora_forwarder_contrac.Forwarder.Flow.Steps.{after}
use aurora_forwarder_contrac.Forwarder.Flow.Token
use aurora_forwarder_contrac.Forwarder.Flow.Token.{IsTokenBegin, IsShort}
use aurora_forwarder_contrac.Forwarder.Host.Machine.{Machine, Promise}
use aurora_forwarder_contrac.Forwarder.Params.Layout.{fees_params_bytes, finish_params_bytes}
use aurora_forwarder_contrac.Forwarder.Promise.{PromiseResult, successful, failed}
use aurora_forwarder_contrac.Forwarder.Safety.{Call, calls}
use aurora_forwarder_contrac.Forwarder.Lifecycle.History.{calls-IsReady}
use aurora_forwarder_contrac.Protocol.Answers.{result_of, fee_for}
use aurora_forwarder_contrac.Protocol.Token.{forward_whole}
use aurora_forwarder_contrac.Protocol.Fixtures.{
  stranger_destroys, stranger_refused, five_percent, nine-supported, fee-fifty, fifty-IsShort,
}

abbrev balance_text : Bytes
balance_text = codes "\"1000\""

balance_text-read : vec_to_number balance_text ≡ ok 1000
unfolding vec_to_number is_utf8
balance_text-read = refl

-- The results: the token has a balance of 1000, and the fees contract answers the query for it.
abbrev token_results : ℕ → PromiseResult
token_results n =
    if n == 0
    then successful balance_text
    else if n == 2
    then result_of (
        calculate_fees_call reference readers by_number five_percent
          (fees_params_bytes reference (token_fees (state_for aurora) usdt_near 1000)))
    else failed

abbrev forward_usdt : Call
forward_usdt = made Entry.forward owner_near 1 (encoding reference usdt_near) []

abbrev fees_callback : Call
fees_callback =
    made Entry.calculate_fees_callback forwarder_near 0 (encoding reference usdt_near)
      (token_results 0 ∷ [])

abbrev finish_callback : Call
finish_callback =
    made Entry.finish_forward_callback forwarder_near 2
      (finish_params_bytes reference (token_finish usdt_near 1000)) (token_results 2 ∷ [])

usdt-other : usdt_near.as_bytes ≢ near
usdt-other h = cc

forward_usdt-begins : IsTokenBegin reference usdt_near 1000 token_results in_place forward_usdt
forward_usdt-begins = record {
  entry = refl;
  one_yocto = refl;
  token_valid = usdt_near-IsAccount;
  token_given = refl;
  not_near = usdt-other;
  balance_text = balance_text;
  balance = refl;
  balance_short = omega arith;
  balance_read = balance_text-read;
}

abbrev token_log : List Promise
token_log = token_promises reference usdt_near forwarder_near 0

-- Behind the first call and behind the first callback, a stranger's call comes between.
abbrev token_waiting : Machine
token_waiting = calls reference in_place (forward_usdt ∷ stranger_destroys ∷ [])

abbrev fee_waiting : Machine
fee_waiting = calls reference token_waiting (fees_callback ∷ stranger_destroys ∷ [])

token_waiting-IsReady : IsReady reference (state_for aurora) forwarder_near token_waiting
token_waiting-IsReady =
    calls-IsReady reference-IsDocumented forwarder_near-IsAccount (state_for aurora) in_place
      (forward_usdt ∷ stranger_destroys ∷ []) in_place-IsSafe.ready

first_log : token_waiting.promises ≡ token_log
unfolding calls
first_log =
    ap (λ (m : Machine). m.promises)
      (stranger_refused (after reference in_place forward_usdt) (
        calls-IsReady reference-IsDocumented forwarder_near-IsAccount (state_for aurora) in_place
          (forward_usdt ∷ []) in_place-IsSafe.ready))
    ∙ Token.first_call reference-IsDocumented in_place forward_usdt in_place-IsSafe.ready
        forward_usdt-begins

first-IsDelivery :
    IsDelivery token_results token_waiting.promises forwarder_near.as_bytes 1 fees_callback
first-IsDelivery =
    subst (λ (l : List Promise). IsDelivery token_results l forwarder_near.as_bytes 1 fees_callback)
      (sym first_log) (refl, refl, refl, refl, refl, refl)

abbrev fees_log : List Promise
fees_log = fees_promises reference (state_for aurora) forwarder_near usdt_near 1000 2

second_log : fee_waiting.promises ≡ token_log ++ fees_log
unfolding calls
second_log =
    ap (λ (m : Machine). m.promises)
      (stranger_refused (after reference token_waiting fees_callback) (
        calls-IsReady reference-IsDocumented forwarder_near-IsAccount (state_for aurora)
          token_waiting (fees_callback ∷ []) token_waiting-IsReady))
    ∙ Token.second_call reference-IsDocumented [] in_place token_waiting forward_usdt fees_callback
        token_waiting-IsReady forward_usdt-begins first_log first-IsDelivery
    ∙ (λ i.
        first_log i
        ++ fees_promises reference (state_for aurora) forwarder_near usdt_near 1000
            (length (first_log i)))

second-IsDelivery :
    IsDelivery token_results fee_waiting.promises forwarder_near.as_bytes
      (length token_waiting.promises + 1)
      finish_callback
second-IsDelivery =
    subst
      (λ (l : List Promise).
        IsDelivery token_results l forwarder_near.as_bytes (length token_waiting.promises + 1)
          finish_callback)
      (sym second_log)
      (subst
        (λ (l : List Promise).
          IsDelivery token_results (token_log ++ fees_log) forwarder_near.as_bytes (length l + 1)
            finish_callback)
        (sym first_log) (refl, refl, refl, refl, refl, refl))

abbrev usdt_fee : ℕ
usdt_fee = fee_for by_number account_of five_percent (state_for aurora) usdt_near 1000

usdt_fee-IsShort : IsShort (state_for aurora) 1000 usdt_fee
usdt_fee-IsShort =
    subst (IsShort (state_for aurora) 1000) (sym (fee-fifty 6 address.raw)) fifty-IsShort

forward_whole_example :
    ((calls reference in_place (forward_usdt ∷ [])).promises ≡ token_log)
    × ((calls reference token_waiting (fees_callback ∷ [])).promises
        ≡ token_waiting.promises
          ++ fees_promises reference
              (state_for aurora)
              forwarder_near
              usdt_near
              1000
              (length token_waiting.promises))
    × ((calls reference fee_waiting (finish_callback ∷ [])).promises
        ≡ fee_waiting.promises
          ++ transfer_of reference (state_for aurora) (token_finish usdt_near 1000) usdt_fee
            ∷ fee_transfer
                (state_for aurora)
                (token_finish usdt_near 1000)
                usdt_fee
                (length fee_waiting.promises)
            ∷ [])
    × ((1000 - usdt_fee) + usdt_fee ≡ 1000)
forward_whole_example =
    forward_whole by_number reference-IsDocumented readers-AreDocumented five_percent in_place
      forward_usdt fees_callback finish_callback (stranger_destroys ∷ []) (stranger_destroys ∷ [])
      in_place-IsSafe.ready forward_usdt-begins (omega arith) refl (omega arith) nine-supported
      (ap (λ (l : List Promise). token_results (length l)) first_log) usdt_fee-IsShort
      first-IsDelivery second-IsDelivery
