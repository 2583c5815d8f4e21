-- ===== src/Forwarder/Contract/Sim.antt =====
-- The entry points over a lawful host and over the machine.
use aurora_forwarder_contrac.Base.{ℕ, ◌≡◌, Option, none, some}
use aurora_forwarder_contrac.Crates.{Crates}
use aurora_forwarder_contrac.Forwarder.AccountId.{AccountId}
use aurora_forwarder_contrac.Forwarder.Params.{State, FinishForwardParams}
use aurora_forwarder_contrac.Forwarder.Promise.{PromiseResult, successful, failed, not_ready}
use aurora_forwarder_contrac.Forwarder.Host.{Host}
use aurora_forwarder_contrac.Forwarder.Host.Machine.{Machine, machine}
use aurora_forwarder_contrac.Forwarder.Host.Lawful.{IsLawful, seen}
use aurora_forwarder_contrac.Forwarder.Runtime.Handler.{PromiseId}
use aurora_forwarder_contrac.Forwarder.Runtime.Sim.{Sim, sim_rules}
use aurora_forwarder_contrac.Forwarder.Runtime.Sim.Calls.{
  read_input_borsh-Sim, save-Sim, load-Sim, current_account_id-Sim, predecessor_account_id-Sim,
  assert_private_call-Sim, account_balance-Sim, assert_one_yocto-Sim, promise_result-Sim,
  promise_create_call-Sim, promise_create_and_combine-Sim, promise_attach_callback-Sim,
  promise_create_batch-Sim, promise_return-Sim, promise_create_with_callback-Sim,
}
use aurora_forwarder_contrac.Forwarder.Contract.Exports.{Entry}
use aurora_forwarder_contrac.Forwarder.Contract.{
  refuse_initialized, new, forward_native_token, forward_nep141_token, forward, balance_of_result,
  calculate_fees_callback, fee_of_result, send_fee, pay_fee, transfers, finish_forward_callback,
  destroy, enter,
}

ruleset call_rules = (
  sim_rules, read_input_borsh-Sim, save-Sim, load-Sim, current_account_id-Sim,
  predecessor_account_id-Sim, assert_private_call-Sim, account_balance-Sim, assert_one_yocto-Sim,
  promise_result-Sim, promise_create_call-Sim, promise_create_and_combine-Sim,
  promise_attach_callback-Sim, promise_create_batch-Sim, promise_return-Sim,
  promise_create_with_callback-Sim,
)

module _ {h : Host} {view : h.World → Machine} (law : IsLawful h view) (lib : Crates) where
  refuse_initialized-Sim :
      (o : Option State) → Sim view (refuse_initialized h lib o) (refuse_initialized machine lib o)
  unfolding refuse_initialized
  refuse_initialized-Sim none = search sim_rules
  refuse_initialized-Sim (some s) = search sim_rules

  new-Sim : Sim view (new h lib) (new machine lib)
  unfolding new
  new-Sim = search (call_rules, refuse_initialized-Sim) depth 20

  forward_native_token-Sim :
      Sim view (forward_native_token h lib) (forward_native_token machine lib)
  unfolding forward_native_token
  forward_native_token-Sim = search call_rules depth 30

  forward_nep141_token-Sim :
      (id : AccountId)
      → Sim view (forward_nep141_token h lib id) (forward_nep141_token machine lib id)
  unfolding forward_nep141_token
  forward_nep141_token-Sim id = search call_rules depth 20

  forward-Sim : Sim view (forward h lib) (forward machine lib)
  unfolding forward
  forward-Sim = search (call_rules, forward_native_token-Sim, forward_nep141_token-Sim) depth 20

  balance_of_result-Sim :
      (r : PromiseResult) → Sim view (balance_of_result h lib r) (balance_of_result machine lib r)
  unfolding balance_of_result
  balance_of_result-Sim (successful v) = search sim_rules
  balance_of_result-Sim failed = search sim_rules
  balance_of_result-Sim not_ready = search sim_rules

  calculate_fees_callback-Sim :
      Sim view (calculate_fees_callback h lib) (calculate_fees_callback machine lib)
  unfolding calculate_fees_callback
  calculate_fees_callback-Sim = search (call_rules, balance_of_result-Sim) depth 40

  fee_of_result-Sim :
      (r : PromiseResult) → Sim view (fee_of_result h lib r) (fee_of_result machine lib r)
  unfolding fee_of_result
  fee_of_result-Sim (successful v) = search sim_rules
  fee_of_result-Sim failed = search sim_rules
  fee_of_result-Sim not_ready = search sim_rules

  send_fee-Sim :
      (token fees : AccountId) (fee : ℕ) (p : PromiseId)
      → Sim view (send_fee h lib token fees fee p) (send_fee machine lib token fees fee p)
  unfolding send_fee
  send_fee-Sim token fees fee p = search call_rules

  pay_fee-Sim :
      (token fees : AccountId) (fee : ℕ) (p : PromiseId)
      → Sim view (pay_fee h lib token fees fee p) (pay_fee machine lib token fees fee p)
  unfolding pay_fee
  pay_fee-Sim token fees fee p = search (call_rules, send_fee-Sim)

  transfers-Sim :
      (s : State) (p : FinishForwardParams) (fee : ℕ)
      → Sim view (transfers h lib s p fee) (transfers machine lib s p fee)
  unfolding transfers
  transfers-Sim s p fee = search (call_rules, pay_fee-Sim) depth 20

  finish_forward_callback-Sim :
      Sim view (finish_forward_callback h lib) (finish_forward_callback machine lib)
  unfolding finish_forward_callback
  finish_forward_callback-Sim = search (call_rules, fee_of_result-Sim, transfers-Sim) depth 40

  destroy-Sim : Sim view (destroy h lib) (destroy machine lib)
  unfolding destroy
  destroy-Sim = search call_rules depth 30

  -- Every entry point, on every state of a lawful host, ends with the same value or panic as on the
  -- machine that shows what the host shows, and leaves what is seen of the host as it leaves the
  -- machine.
  pub enter_refines :
      (e : Entry) (w : h.World) → seen view (enter h lib e w) ≡ enter machine lib e (view w)
  unfolding enter
  enter_refines Entry.new w = new-Sim.at w
  enter_refines Entry.forward w = forward-Sim.at w
  enter_refines Entry.calculate_fees_callback w = calculate_fees_callback-Sim.at w
  enter_refines Entry.finish_forward_callback w = finish_forward_callback-Sim.at w
  enter_refines Entry.destroy w = destroy-Sim.at w
