-- ===== src/Protocol/Native.antt =====
-- A forward of native NEAR over both contracts (forwarder/src/lib.rs, fees/src/lib.rs).
use aurora_forwarder_contrac.Forwarder.Contract.Spec.{IsReady}
use aurora_forwarder_contrac.Base.{
  ℕ, ◌+◌, ◌-◌, ◌≤◌, ◌≡◌, ◌∙◌, ap, some, List, [], ◌∷◌, ◌++◌, length, arith, true,
}
use aurora_forwarder_contrac.BTreeSet
use aurora_forwarder_contrac.BTreeSet.{Ord}
use aurora_forwarder_contrac.Crates.{Crates, IsDocumented}
use aurora_forwarder_contrac.Fees.{FeesCalculator}
use aurora_forwarder_contrac.Fees.Bounds.{calculate_fees-bounds}
use aurora_forwarder_contrac.Fees.Interface.{
  Readers, AreDocumented, calculate_fees_call, calculate_fees_call-params, calculate_fees-lt,
}
use aurora_forwarder_contrac.Forwarder.AccountId.{AccountId}
use aurora_forwarder_contrac.Forwarder.Contract.Finish.{transfer_of, fee_transfer}
use aurora_forwarder_contrac.Forwarder.Contract.Native.{native_promises, native_fees, native_finish}
use aurora_forwarder_contrac.Forwarder.Flow.{IsDelivery}
use aurora_forwarder_contrac.Forwarder.Flow.Native.{IsNearBegin, near_flow}
use aurora_forwarder_contrac.Forwarder.Flow.Token.{IsShort}
use aurora_forwarder_contrac.Forwarder.Host.Machine.{Machine}
use aurora_forwarder_contrac.Forwarder.Params.{State}
use aurora_forwarder_contrac.Forwarder.Params.Layout.{fees_params_bytes}
use aurora_forwarder_contrac.Forwarder.Promise.{PromiseResult}
use aurora_forwarder_contrac.Forwarder.Safety.{Call, calls}
use aurora_forwarder_contrac.Protocol.Answers.{result_of, fee_for}

module _ {Account : Type 0} (o : Ord Account) {lib : Crates} (doc : IsDocumented lib)
    {r : Readers Account} {account : AccountId → Account} (sdk : AreDocumented lib r account)
    {s : State} {self : AccountId} {amount percent : ℕ} where
  -- A forward of native NEAR over both contracts, whatever calls come between, while the account exists. On
  -- a forwarder in place whose balance is a u128 above the reserve by a
  -- positive `amount`, `forward` is called with one yoctoNEAR and `near`, and the fees contract
  -- supports wNEAR at a percent of at most 1000. Any calls `cs` follow, and the callback on the wrap
  -- and the fees contract's answer, the result of its `calculate_fees` on the very arguments that
  -- the forwarder has sent. Then `forward` schedules exactly the wrap, the fee query, the two joined
  -- and the callback, and the callback exactly the transfer of `amount` less the fee to the target
  -- network and behind it the transfer of the fee to the fees contract, and together these two move
  -- all of `amount`. The texts of the two transfers have to fit their buffers.
  pub forward_near_whole :
      (results : ℕ → PromiseResult) (fees : FeesCalculator Account) (m : Machine) (c d : Call)
      (cs : List Call)
      → IsReady lib s self m
      → IsNearBegin lib amount c
      → fees.percent ≡ some percent
      → percent ≤ 1000
      → BTreeSet.contains o fees.supported_tokens (account s.wnear_contract_id) ≡ true
      → let m' = calls lib m (c ∷ cs) in
        let fee = fee_for o account fees s s.wnear_contract_id amount in
        results (length m.promises + 1)
          ≡ result_of
              (calculate_fees_call lib r o fees (fees_params_bytes lib (native_fees s amount)))
        → IsShort s amount fee
        → IsDelivery results m'.promises self.as_bytes (length m.promises + 3) d
        → ((calls lib m (c ∷ [])).promises
            ≡ m.promises ++ native_promises lib s self amount (length m.promises))
          × ((calls lib m' (d ∷ [])).promises
              ≡ m'.promises
                ++ transfer_of lib s (native_finish s amount) fee
                  ∷ fee_transfer s (native_finish s amount) fee (length m'.promises)
                  ∷ [])
          × ((amount - fee) + fee ≡ amount)
  forward_near_whole results fees m c d cs ready begin set low supported answer short delivery =
      let (due, most) =
        calculate_fees-bounds o fees percent amount (account s.wnear_contract_id)
          (account s.target_network) s.target_address.raw set low supported begin.some_left in
      let fee_given =
        answer
        ∙ ap result_of (
            calculate_fees_call-params o doc sdk fees (native_fees s amount)
              (omega (arith, begin.balance, begin.balance_fits)) ready.state.wnear
              ready.state.network ready.state.address) in
      let (begun, finished) =
        near_flow doc results m c d cs ready begin
          (calculate_fees-lt o fees amount (account s.wnear_contract_id) (account s.target_network)
            s.target_address.raw)
          due fee_given short delivery in
      (begun, finished, omega (arith, most))
