-- ===== src/Forwarder/Contract/Native.antt =====
-- `forward_native_token` on the machine: what it schedules, and its refusal.
use aurora_forwarder_contrac.Base.{
  ℕ, ◌+◌, ◌-◌, ◌^◌, ◌<◌, ◌≤◌, ◌≡◌, refl, sym, ap, ◌∙◌, append-nil, none, some, List, [], ◌∷◌, codes,
  length, trap, arith,
}
use aurora_forwarder_contrac.Crates.{Crates, IsDocumented}
use aurora_forwarder_contrac.Forwarder.AccountId.{AccountId}
use aurora_forwarder_contrac.Forwarder.Params.Buffer.{
  to_borsh-write_fees_params, to_borsh-write_finish_params,
}
use aurora_forwarder_contrac.Forwarder.Host.Machine.{
  Machine, machine, Promise, call, callback, joined,
}
use aurora_forwarder_contrac.Forwarder.Params.{State, FeesParams, FinishForwardParams}
use aurora_forwarder_contrac.Forwarder.Params.Layout.{fees_params_bytes, finish_params_bytes}
use aurora_forwarder_contrac.Forwarder.Runtime.Exec
use aurora_forwarder_contrac.Forwarder.Runtime.Steps.{
  Ends, step, stop, last, ids, lift-run, unwrap-run, or_trap-run, or_trap-none-run,
  promise_create_and_combine-run, promise_attach_callback-run, promise_return-run,
}
use aurora_forwarder_contrac.Forwarder.Runtime.Run.{account_balance-run, current_account_id-run}
use aurora_forwarder_contrac.Forwarder.Contract.{forwardable, forward_native_token}
use aurora_forwarder_contrac.Forwarder.Contract.Constants.{
  minimum_balance, near_deposit_gas, calculate_fees_gas, finish_forward_gas,
}
use aurora_forwarder_contrac.Forwarder.Contract.Spec.{IsReady, Schedules, Refuses, load-ready}

abbrev pub native_fees : State → ℕ → FeesParams
native_fees s amount = record {
  amount = amount;
  token_id = s.wnear_contract_id;
  target_network = s.target_network;
  target_address = s.target_address;
}

abbrev pub native_finish : State → ℕ → FinishForwardParams
native_finish s amount = record { amount = amount; token_id = s.wnear_contract_id; promise_idx = 1 }

-- The promises of a forward of native tokens, the first of them number `n`.
abbrev pub native_promises : Crates → State → AccountId → ℕ → ℕ → List Promise
native_promises lib s self amount n =
    call s.wnear_contract_id.as_bytes (codes "near_deposit") [] amount near_deposit_gas
    ∷ call s.fees_contract_id.as_bytes (codes "calculate_fees")
        (fees_params_bytes lib (native_fees s amount)) 0 calculate_fees_gas
    ∷ joined (n ∷ (n + 1) ∷ [])
    ∷ callback (n + 2) self.as_bytes (codes "finish_forward_callback")
        (finish_params_bytes lib (native_finish s amount)) 2 finish_forward_gas
    ∷ []

-- The reserve is kept, and something is left to forward, exactly if the balance is above it.
pub forwardable-some :
    (balance : ℕ)
    → minimum_balance < balance
    → forwardable balance ≡ some (balance - minimum_balance)
unfolding forwardable
forwardable-some balance h = ground arith

pub forwardable-none : (balance : ℕ) → balance ≤ minimum_balance → forwardable balance ≡ none
unfolding forwardable
forwardable-none balance h = ground arith

-- A balance at or below the reserve ends the call before anything is scheduled.
pub native-Refuses :
    (lib : Crates) (m : Machine)
    → m.balance ≤ minimum_balance
    → Ends (Refuses m trap) (forward_native_token machine lib m)
unfolding forward_native_token
native-Refuses lib m low = step _ _ (account_balance-run m (omega arith)) (
    stop _ _ (ap (λ o. Exec.or_trap o m) (forwardable-none m.balance low) ∙ or_trap-none-run m)
      (refl, refl, refl, refl, refl))

module _ {lib : Crates} (doc : IsDocumented lib) {s : State} {self : AccountId} where
  pub native-Schedules :
      (m : Machine)
      → IsReady lib s self m
      → m.balance < 2 ^ 128
      → minimum_balance < m.balance
      → Ends
          (Schedules m
            (native_promises lib s self (m.balance - minimum_balance) (length m.promises))
            []
            3)
          (forward_native_token machine lib m)
  unfolding forward_native_token
  native-Schedules m r bounded enough =
      let amount = m.balance - minimum_balance in
      step _ _ (account_balance-run m bounded) (
        step _ _
          (ap (λ o. Exec.or_trap o m) (forwardable-some m.balance enough) ∙ or_trap-run amount m)
          (step _ _ (load-ready doc m r) (
            step _ _ (or_trap-run s _) (
              step _ _
                (lift-run _ (
                  to_borsh-write_fees_params doc (native_fees s amount) r.state.wnear
                    r.state.network r.state.address))
                (step _ _ (unwrap-run _ _) (
                  step _ _ (promise_create_and_combine-run _ _ _) (
                    step _ _ (current_account_id-run doc self _ r.valid r.here) (
                      step _ _
                        (lift-run _
                          (to_borsh-write_finish_params doc (native_finish s amount) r.state.wnear))
                        (step _ _ (unwrap-run _ _) (
                          step _ _ (promise_attach_callback-run _ _ _) (
                            last (promise_return-run _ _)
                              (refl, simp ids, sym (append-nil _), simp ids, refl))))))))))))
