-- ===== src/Forwarder/Invariant/Entries.antt =====
-- The entry points but `new` (forwarder/src/lib.rs) keep an invariant of the host.
use aurora_forwarder_contrac.Base.{
  ℕ, ◌-◌, ◌≡◌, false, not, some, bytes_eq, bytes_eq_iff, ltb, arith,
}
use aurora_forwarder_contrac.Crates.{Crates}
use aurora_forwarder_contrac.Forwarder.AccountId.{AccountId}
use aurora_forwarder_contrac.Forwarder.Contract.{
  refuse_initialized, new, forward_native_token, forward_nep141_token, forward, balance_of_result,
  calculate_fees_callback, fee_of_result, send_fee, pay_fee, transfers, finish_forward_callback,
  destroy,
}
use aurora_forwarder_contrac.Forwarder.Contract.Constants.{near}
use aurora_forwarder_contrac.Forwarder.Host.Machine.{Machine, machine, delete}
use aurora_forwarder_contrac.Forwarder.Params.{State, FinishForwardParams, is_owner}
use aurora_forwarder_contrac.Forwarder.Promise.{PromiseResult, not_ready, successful, failed}
use aurora_forwarder_contrac.Forwarder.Runtime.Handler.{PromiseId}
use aurora_forwarder_contrac.Forwarder.Runtime.Io.{load}
use aurora_forwarder_contrac.Forwarder.Runtime.Upholds.{
  Upholds, Keeps, Keeps-pure, Upholds-pure, Upholds-bind, Upholds-lift, Upholds-panic_utf8,
  Upholds-sdk_unwrap, Upholds-sdk_expect, Upholds-or_trap, Upholds-if, Keeps-of_Upholds,
}
use aurora_forwarder_contrac.Forwarder.Safety.{
  wrap, ask_fees, ask_balance, transfer_on, transfer_fee, back_to_fees, back_to_finish, join,
  own_batch, IsAllowedAction,
}
use aurora_forwarder_contrac.Forwarder.Invariant.{IsPolicy}
use aurora_forwarder_contrac.Forwarder.Invariant.Runtime.{
  read_input_borsh-Keeps, predecessor_account_id-Keeps, promise_result-Keeps,
  promise_create_call-Keeps, promise_attach_callback-Keeps, promise_return-Keeps,
  promise_create_and_combine-Keeps, promise_create_with_callback-Keeps, delete_account-Keeps,
  assert_private_call-Keeps, account_balance-Keeps, assert_one_yocto-Keeps,
}
use aurora_forwarder_contrac.Forwarder.Host.Machine.{Promise, Action}

owner_of :
    (s : State) (caller : AccountId)
    → not (is_owner s caller) ≡ false
    → caller.as_bytes ≡ s.owner_id.as_bytes
owner_of s caller h = ground (arith, bytes_eq_iff s.owner_id.as_bytes caller.as_bytes)

-- `new` goes no further than its first test on a contract that is in place.
module _ (lib : Crates) {P : Machine → Type 0} (s : State) where
  -- Nothing behind it is run.
  refuse_initialized-Upholds : Upholds P (λ _. ⊥) (refuse_initialized machine lib (some s))
  unfolding refuse_initialized
  refuse_initialized-Upholds = Upholds-panic_utf8 _ _

  pub new-Keeps : Upholds P (λ o. o ≡ some s) (load machine lib) → Keeps P (new machine lib)
  unfolding new
  new-Keeps loads = Upholds-bind loads (λ stored is_stored.
      rw is_stored (Upholds-bind refuse_initialized-Upholds (λ _ none_left. absurd none_left)))

module _ {lib : Crates} {P : Machine → Type 0} {Allowed : Promise → Type 0}
    {AllowedAction : Action → Type 0} {Good : State → Type 0} {Here : AccountId → Type 0}
    (pol : IsPolicy lib P Allowed AllowedAction Good Here) where
  forward_native_token-Keeps : Keeps P (forward_native_token machine lib)
  unfolding forward_native_token
  forward_native_token-Keeps = Upholds-bind (account_balance-Keeps pol.invariant) (λ balance _.
      Upholds-bind (Upholds-or_trap _) (λ amount _. Upholds-bind pol.loads (λ stored good.
        Upholds-bind (Upholds-or_trap _) (λ state is_state. Upholds-bind (Upholds-lift _) (λ _ _.
          Upholds-bind (Upholds-sdk_unwrap _) (λ fees_args _.
            Upholds-bind
              (promise_create_and_combine-Keeps pol.invariant _ _
                (pol.allows (good state is_state) pol.is_here (wrap amount))
                (pol.allows (good state is_state) pol.is_here (ask_fees fees_args))
                (λ ids. pol.allows (good state is_state) pol.is_here (join ids)))
              (λ p _. Upholds-bind pol.runs_on (λ current here.
                Upholds-bind (Upholds-lift _) (λ _ _.
                  Upholds-bind (Upholds-sdk_unwrap _) (λ finish_args _.
                    Upholds-bind
                      (promise_attach_callback-Keeps pol.invariant p _
                        (pol.allows (good state is_state) here (back_to_finish p.raw finish_args)))
                      (λ q _. promise_return-Keeps pol.invariant q)))))))))))

  forward_nep141_token-Keeps :
      (token_id : AccountId) → Keeps P (forward_nep141_token machine lib token_id)
  unfolding forward_nep141_token
  forward_nep141_token-Keeps token_id = Upholds-bind (Upholds-lift _) (λ _ _.
      Upholds-bind (Upholds-sdk_unwrap _) (λ callback_args _. Upholds-bind pol.runs_on (λ holder _.
        Upholds-bind (Upholds-lift _) (λ balance_args _. Upholds-bind pol.runs_on (λ current here.
          Upholds-bind
            (promise_create_with_callback-Keeps pol.invariant _
              (pol.allows pol.is_good here (ask_balance token_id.as_bytes balance_args))
              (λ n. pol.allows pol.is_good here (back_to_fees n callback_args)))
            (λ p _. promise_return-Keeps pol.invariant p))))))

  pub forward-Keeps : Keeps P (forward machine lib)
  unfolding forward
  forward-Keeps = Upholds-bind (assert_one_yocto-Keeps pol.invariant) (λ deposit _.
      Upholds-bind (Upholds-sdk_unwrap _) (λ _ _.
        Upholds-bind (read_input_borsh-Keeps pol.invariant _) (λ input _.
          Upholds-bind (Upholds-sdk_unwrap _) (λ params _.
            Upholds-if (bytes_eq params.token_id.as_bytes near) (λ _. forward_native_token-Keeps)
              (λ _. forward_nep141_token-Keeps params.token_id)))))

  balance_of_result-Keeps : (r : PromiseResult) → Keeps P (balance_of_result machine lib r)
  unfolding balance_of_result
  balance_of_result-Keeps (successful v) = Keeps-of_Upholds (Upholds-sdk_unwrap _)
  balance_of_result-Keeps failed = Upholds-panic_utf8 _ _
  balance_of_result-Keeps not_ready = Upholds-panic_utf8 _ _

  pub calculate_fees_callback-Keeps : Keeps P (calculate_fees_callback machine lib)
  unfolding calculate_fees_callback
  calculate_fees_callback-Keeps =
      Upholds-bind (assert_private_call-Keeps pol.invariant lib) (λ private _.
        Upholds-bind (Upholds-sdk_unwrap _) (λ _ _.
          Upholds-bind (read_input_borsh-Keeps pol.invariant _) (λ input _.
            Upholds-bind (Upholds-sdk_unwrap _) (λ params _. Upholds-bind pol.loads (λ stored good.
              Upholds-bind (Upholds-sdk_expect _ _) (λ state is_state.
                Upholds-bind (promise_result-Keeps pol.invariant 0) (λ _ _.
                  Upholds-bind (Upholds-sdk_expect _ _) (λ result _.
                    Upholds-bind (balance_of_result-Keeps result) (λ amount _.
                      Upholds-bind (Upholds-lift _) (λ _ _.
                        Upholds-bind (Upholds-sdk_unwrap _) (λ fees_args _.
                          Upholds-bind
                            (promise_create_call-Keeps pol.invariant _
                              (pol.allows (good state is_state) pol.is_here (ask_fees fees_args)))
                            (λ p _. Upholds-bind pol.runs_on (λ current here.
                              Upholds-bind (Upholds-lift _) (λ _ _.
                                Upholds-bind (Upholds-sdk_unwrap _) (λ finish_args _.
                                  Upholds-bind
                                    (promise_attach_callback-Keeps pol.invariant p _ (
                                      pol.allows (good state is_state) here
                                        (back_to_finish p.raw finish_args)))
                                    (λ q _. promise_return-Keeps pol.invariant q))))))))))))))))

  fee_of_result-Keeps : (r : PromiseResult) → Keeps P (fee_of_result machine lib r)
  unfolding fee_of_result
  fee_of_result-Keeps (successful v) = Keeps-of_Upholds (Upholds-sdk_unwrap _)
  fee_of_result-Keeps failed = Upholds-panic_utf8 _ _
  fee_of_result-Keeps not_ready = Upholds-panic_utf8 _ _

  pay_fee-Keeps :
      (s : State) (token_id : AccountId) (fee : ℕ) (p : PromiseId)
      → Good s
      → Keeps P (pay_fee machine lib token_id s.fees_contract_id fee p)
  unfolding pay_fee send_fee
  pay_fee-Keeps s token_id fee p good =
      Upholds-if (ltb 0 fee)
        (λ _. Upholds-bind (Upholds-lift _) (λ fee_args written.
          promise_attach_callback-Keeps pol.invariant p _ (
            pol.allows good pol.is_here
              (transfer_fee p.raw token_id.as_bytes fee_args fee written))))
        (λ _. Keeps-pure p)

  transfers-Keeps :
      (s : State) (params : FinishForwardParams) (fee : ℕ)
      → Good s
      → Keeps P (transfers machine lib s params fee)
  unfolding transfers
  transfers-Keeps s params fee good = Upholds-bind (Upholds-lift _) (λ transfer_args written.
      Upholds-bind
        (promise_create_call-Keeps pol.invariant _ (
          pol.allows good pol.is_here
            (transfer_on params.token_id.as_bytes transfer_args (params.amount - fee) written)))
        (λ p _.
          Upholds-bind (pay_fee-Keeps s params.token_id fee p good)
            (λ q _. promise_return-Keeps pol.invariant q)))

  pub finish_forward_callback-Keeps : Keeps P (finish_forward_callback machine lib)
  unfolding finish_forward_callback
  finish_forward_callback-Keeps =
      Upholds-bind (assert_private_call-Keeps pol.invariant lib) (λ private _.
        Upholds-bind (Upholds-sdk_unwrap _) (λ _ _.
          Upholds-bind (read_input_borsh-Keeps pol.invariant _) (λ input _.
            Upholds-bind (Upholds-sdk_unwrap _) (λ params _. Upholds-bind pol.loads (λ stored good.
              Upholds-bind (Upholds-sdk_expect _ _) (λ state is_state.
                Upholds-bind (promise_result-Keeps pol.invariant params.promise_idx) (λ _ _.
                  Upholds-bind (Upholds-sdk_expect _ _) (λ result _.
                    Upholds-bind (fee_of_result-Keeps result)
                      (λ fee _. transfers-Keeps state params fee (good state is_state))))))))))

  pub destroy-Keeps :
      ((s : State) (a : Action) → Good s → IsAllowedAction s a → AllowedAction a)
      → Keeps P (destroy machine lib)
  unfolding destroy
  destroy-Keeps allows_action = Upholds-bind pol.loads (λ stored good.
      Upholds-bind (Upholds-sdk_expect _ _) (λ state is_state.
        Upholds-bind (predecessor_account_id-Keeps pol.invariant lib) (λ caller _.
          Upholds-bind {Q = λ _. caller.as_bytes ≡ state.owner_id.as_bytes}
            (Upholds-if (not (is_owner state caller)) (λ _. Upholds-panic_utf8 _ _)
              (λ owns. Upholds-pure _ tt (owner_of state caller owns)))
            (λ _ owns. Upholds-bind pol.runs_on (λ current here.
              Upholds-bind
                (delete_account-Keeps pol.invariant current caller
                  (pol.allows (good state is_state) here own_batch)
                  (λ n. allows_action state (delete n caller.as_bytes) (good state is_state) owns))
                (λ p _. promise_return-Keeps pol.invariant p))))))
