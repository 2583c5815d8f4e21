-- ===== src/Forwarder/Contract/Transfers.antt =====
-- The transfers at the end of `finish_forward_callback` (forwarder/src/lib.rs).
use aurora_forwarder_contrac.Base.{
  ℕ, ◌+◌, ◌-◌, ◌^◌, ◌<◌, ◌≤◌, ◌≡◌, refl, sym, ap, true, false, some, [], ◌∷◌, append-nil, Bytes,
  codes, length, ltb, ok, err, trap, arith,
}
use aurora_forwarder_contrac.Crates.{Crates, IsDocumented}
use aurora_forwarder_contrac.Forwarder.AccountId.{AccountId}
use aurora_forwarder_contrac.Forwarder.Address.{IsAddress}
use aurora_forwarder_contrac.Forwarder.Json.{ft_transfer_call_args, ft_transfer_args}
use aurora_forwarder_contrac.Forwarder.Host.Machine.{Machine, machine, Promise, call, callback}
use aurora_forwarder_contrac.Forwarder.Json.Fits.{
  transfer_json, transfer_call_json, ft_transfer_args-json, ft_transfer_call_args-json,
}
use aurora_forwarder_contrac.Forwarder.Params.{State, FinishForwardParams}
use aurora_forwarder_contrac.Forwarder.Runtime.Exec
use aurora_forwarder_contrac.Forwarder.Runtime.Handler
use aurora_forwarder_contrac.Forwarder.Runtime.Handler.{PromiseId}
use aurora_forwarder_contrac.Forwarder.Runtime.Steps.{
  next_id, scheduled, Ends, step, stop, last, ids, lift-run, pure-run, promise_create_call-run,
  promise_return-run,
}
use aurora_forwarder_contrac.Forwarder.Contract.{pay_fee, send_fee, transfers}
use aurora_forwarder_contrac.Forwarder.Contract.Constants.{ft_transfer_gas, ft_transfer_call_gas}
use aurora_forwarder_contrac.Forwarder.Contract.Spec.{Schedules, Refuses}
use aurora_forwarder_contrac.Forwarder.Decimal.Print.{decimal}

abbrev pub transfer_of : Crates → State → FinishForwardParams → ℕ → Promise
transfer_of lib s p fee =
    call p.token_id.as_bytes (codes "ft_transfer_call")
      (transfer_call_json lib s.target_network (p.amount - fee) s.target_address) 1
      ft_transfer_call_gas

abbrev pub fee_transfer : State → FinishForwardParams → ℕ → ℕ → Promise
fee_transfer s p fee n =
    callback n p.token_id.as_bytes (codes "ft_transfer") (transfer_json s.fees_contract_id fee) 1
      ft_transfer_gas

send_fee-run :
    (lib : Crates) (token fees : AccountId) (fee : ℕ) (id : PromiseId) (m : Machine) {v : Bytes}
    → ft_transfer_args lib fees fee ≡ ok v
    → send_fee machine lib token fees fee id m ≡ (
      ok (next_id m),
      scheduled (callback id.raw token.as_bytes (codes "ft_transfer") v 1 ft_transfer_gas) m,
    )
unfolding send_fee Exec.◌>>=◌ Handler.promise_attach_callback
send_fee-run lib token fees fee id m args = rw args

send_fee-full :
    (lib : Crates) (token fees : AccountId) (fee : ℕ) (id : PromiseId) (m : Machine)
    → ft_transfer_args lib fees fee ≡ err trap
    → send_fee machine lib token fees fee id m ≡ (err trap, m)
unfolding send_fee Exec.◌>>=◌
send_fee-full lib token fees fee id m full = rw full

module _ {lib : Crates} (doc : IsDocumented lib) (s : State) (p : FinishForwardParams) (fee : ℕ)
    (m : Machine) (amount_fits : p.amount < 2 ^ 128) (address : IsAddress s.target_address) where
  -- The transfer's arguments are returned, or do not fit.
  transfer_args :
      length s.target_network.as_bytes + length (decimal (p.amount - fee)) ≤ 49
      → ft_transfer_call_args lib s.target_network (p.amount - fee) s.target_address
        ≡ ok (transfer_call_json lib s.target_network (p.amount - fee) s.target_address)
  transfer_args short =
      ground
        (arith, ft_transfer_call_args-json doc s.target_network (p.amount - fee) s.target_address)

  pub transfers-Refuses :
      49 < length s.target_network.as_bytes + length (decimal (p.amount - fee))
      → Ends (Refuses m trap) (transfers machine lib s p fee m)
  unfolding transfers
  transfers-Refuses long =
      let full : ft_transfer_call_args lib s.target_network (p.amount - fee) s.target_address
          ≡ err trap =
        ground (
          arith,
          ft_transfer_call_args-json doc s.target_network (p.amount - fee) s.target_address,
        ) in
      stop _ _ (lift-run _ full) (refl, refl, refl, refl, refl)

  pub transfers-whole :
      length s.target_network.as_bytes + length (decimal (p.amount - fee)) ≤ 49
      → fee ≡ 0
      → Ends (Schedules m (transfer_of lib s p fee ∷ []) [] 0) (transfers machine lib s p fee m)
  unfolding transfers pay_fee
  transfers-whole short none_due =
      let due : ltb 0 fee ≡ false = ground arith in
      step _ _ (lift-run _ (transfer_args short)) (
        step _ _ (promise_create_call-run _ _) (
          rw due (
            step _ _ (pure-run _ _) (
              last (promise_return-run _ _)
                (refl, refl, sym (append-nil _), ap some (omega arith), refl)))))

  pub transfers-split :
      length s.target_network.as_bytes + length (decimal (p.amount - fee)) ≤ 49
      → 0 < fee
      → fee < 2 ^ 128
      → length s.fees_contract_id.as_bytes + length (decimal fee) ≤ 98
      → Ends
          (Schedules m
            (transfer_of lib s p fee ∷ fee_transfer s p fee (length m.promises) ∷ [])
            []
            1)
          (transfers machine lib s p fee m)
  unfolding transfers pay_fee
  transfers-split short due fee_fits fee_short =
      let test : ltb 0 fee ≡ true = ground arith in
      let fee_args : ft_transfer_args lib s.fees_contract_id fee
          ≡ ok (transfer_json s.fees_contract_id fee) =
        ground (arith, ft_transfer_args-json doc s.fees_contract_id fee) in
      step _ _ (lift-run _ (transfer_args short)) (
        step _ _ (promise_create_call-run _ _) (
          rw test (
            step _ _ (send_fee-run lib p.token_id s.fees_contract_id fee _ _ fee_args) (
              last (promise_return-run _ _) (refl, simp ids, sym (append-nil _), simp ids, refl)))))

  -- The transfer is scheduled before the fee's text turns out too long.
  pub transfers-cut :
      length s.target_network.as_bytes + length (decimal (p.amount - fee)) ≤ 49
      → 0 < fee
      → fee < 2 ^ 128
      → 98 < length s.fees_contract_id.as_bytes + length (decimal fee)
      → Ends (λ o. o.0 ≡ err trap) (transfers machine lib s p fee m)
  unfolding transfers pay_fee
  transfers-cut short due fee_fits long =
      let test : ltb 0 fee ≡ true = ground arith in
      let full : ft_transfer_args lib s.fees_contract_id fee ≡ err trap =
        ground (arith, ft_transfer_args-json doc s.fees_contract_id fee) in
      step _ _ (lift-run _ (transfer_args short)) (
        step _ _ (promise_create_call-run _ _)
          (rw test (stop _ _ (send_fee-full lib p.token_id s.fees_contract_id fee _ _ full) refl)))
