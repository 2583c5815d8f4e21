-- ===== src/Forwarder/Contract/Fees.antt =====
-- `calculate_fees_callback`: the fee query for the balance that the token reports, and the last
-- callback (forwarder/src/lib.rs).
use aurora_forwarder_contrac.Base.{
  ℕ, ◌≤◌, ◌≡◌, refl, sym, some, List, [], ◌∷◌, append-nil, Bytes, codes, length, ok, arith,
}
use aurora_forwarder_contrac.Crates.{Crates, IsDocumented}
use aurora_forwarder_contrac.Forwarder.AccountId.{AccountId}
use aurora_forwarder_contrac.Forwarder.AccountId.Codec.{
  IsAccount, IsAccount-bounds, encoding, length-encoding,
}
use aurora_forwarder_contrac.Forwarder.Host.{Host}
use aurora_forwarder_contrac.Forwarder.Host.Machine.{
  machine, Machine, Promise, call, callback, result_at,
}
use aurora_forwarder_contrac.Forwarder.Host.Lawful.{IsLawful, seen}
use aurora_forwarder_contrac.Forwarder.Params.{
  ForwardParams, State, FeesParams, FinishForwardParams,
}
use aurora_forwarder_contrac.Forwarder.Params.Buffer.{
  to_borsh-write_fees_params, to_borsh-write_finish_params,
}
use aurora_forwarder_contrac.Forwarder.Params.RoundTrip.{read_forward_params-encoding}
use aurora_forwarder_contrac.Forwarder.Runtime.Run.{
  promise_result-successful, current_account_id-run,
}
use aurora_forwarder_contrac.Forwarder.Runtime.Steps.{
  Ends, step, last, ids, lift-run, unwrap-run, unwrap_of-run, expect-run, promise_create_call-run,
  promise_attach_callback-run, promise_return-run,
}
use aurora_forwarder_contrac.Forwarder.Contract.{enter, calculate_fees_callback, balance_of_result}
use aurora_forwarder_contrac.Forwarder.Contract.Errors.{IsRead}
use aurora_forwarder_contrac.Forwarder.Contract.Errors.Callbacks.{callback-goes_on}
use aurora_forwarder_contrac.Forwarder.Contract.Exports.{Entry}
use aurora_forwarder_contrac.Forwarder.Contract.Constants.{calculate_fees_gas, finish_forward_gas}
use aurora_forwarder_contrac.Forwarder.Contract.Spec.{IsReady, Schedules, over_host}
use aurora_forwarder_contrac.Forwarder.Params.Layout.{fees_params_bytes, finish_params_bytes}
use aurora_forwarder_contrac.Forwarder.Decimal.{vec_to_number}
use aurora_forwarder_contrac.Forwarder.Promise.{successful}

abbrev pub token_fees : State → AccountId → ℕ → FeesParams
token_fees s token amount = record {
  amount = amount;
  token_id = token;
  target_network = s.target_network;
  target_address = s.target_address;
}

abbrev pub token_finish : AccountId → ℕ → FinishForwardParams
token_finish token amount = record { amount = amount; token_id = token; promise_idx = 0 }

-- The promises of the fee query, the first of them number `n`.
abbrev pub fees_promises : Crates → State → AccountId → AccountId → ℕ → ℕ → List Promise
fees_promises lib s self token amount n =
    call s.fees_contract_id.as_bytes (codes "calculate_fees")
      (fees_params_bytes lib (token_fees s token amount)) 0 calculate_fees_gas
    ∷ callback n self.as_bytes (codes "finish_forward_callback")
        (finish_params_bytes lib (token_finish token amount)) 2 finish_forward_gas
    ∷ []

module _ {lib : Crates} (doc : IsDocumented lib) where
  -- A balance that can be read leads to the fee query, whatever bytes the token was read from.
  pub fees-Schedules :
      (m : Machine) {s : State} {self : AccountId} (p : ForwardParams) (v : Bytes) (amount : ℕ)
      → IsRead lib self m Entry.calculate_fees_callback p
      → IsReady lib s self m
      → IsAccount p.token_id
      → result_at m.results 0 ≡ some (successful v)
      → length v ≤ 256
      → vec_to_number v ≡ ok amount
      → Ends
          (Schedules m (fees_promises lib s self p.token_id amount (length m.promises)) [] 1)
          (enter machine lib Entry.calculate_fees_callback m)
  unfolding enter calculate_fees_callback balance_of_result
  fees-Schedules m {s} {self} p v amount r ready valid result short read =
      callback-goes_on doc _ _ m r.admitted r.short r.parsed ready (
        step _ _ (promise_result-successful 0 v _ result short) (
          step _ _ (expect-run _ _ _) (
            step _ _ (unwrap_of-run _ read) (
              step _ _
                (lift-run _ (
                  to_borsh-write_fees_params doc (token_fees s p.token_id amount) valid
                    ready.state.network ready.state.address))
                (step _ _ (unwrap-run _ _) (
                  step _ _ (promise_create_call-run _ _) (
                    step _ _ (current_account_id-run doc self _ ready.valid ready.here) (
                      step _ _
                        (lift-run _
                          (to_borsh-write_finish_params doc (token_finish p.token_id amount) valid))
                        (step _ _ (unwrap-run _ _) (
                          step _ _ (promise_attach_callback-run _ _ _) (
                            last (promise_return-run _ _)
                              (refl, simp ids, sym (append-nil _), simp ids, refl))))))))))))

module _ {h : Host} {view : h.World → Machine} (law : IsLawful h view) {lib : Crates}
    (doc : IsDocumented lib) where
  -- Called by the contract itself, with a token's id as input and the token's balance as the first
  -- promise result, `calculate_fees_callback` schedules exactly two promises: the fee query for that
  -- amount, and after it the last callback with the same amount and token. Storage stays as it is.
  pub calculate_fees_callback-fees :
      (w : h.World) {s : State} {self : AccountId} (token : AccountId) (v : Bytes) (amount : ℕ)
      → IsReady lib s self (view w)
      → (view w).predecessor ≡ self.as_bytes
      → IsAccount token
      → (view w).input_bytes ≡ encoding lib token
      → result_at (view w).results 0 ≡ some (successful v)
      → length v ≤ 256
      → vec_to_number v ≡ ok amount
      → Schedules
          (view w)
          (fees_promises lib s self token amount (length (view w).promises))
          []
          1
          (seen view (enter h lib Entry.calculate_fees_callback w))
  calculate_fees_callback-fees w {s} {self} token v amount r caller valid given result short read =
      let m = view w in
      let is_read : IsRead lib self m Entry.calculate_fees_callback (record { token_id = token }) =
        record {
          admitted = record { valid = r.valid; here = r.here; caller = caller };
          short = rw given (omega (arith, length-encoding doc token, IsAccount-bounds token valid));
          parsed = rw given (read_forward_params-encoding doc token valid);
        } in
      over_host law lib Entry.calculate_fees_callback w
        (Schedules m (fees_promises lib s self token amount (length m.promises)) [] 1)
        (fees-Schedules doc m (record { token_id = token }) v amount is_read r valid result short
          read)
