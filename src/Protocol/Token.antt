-- ===== src/Protocol/Token.antt =====
-- A forward of a token over both contracts (forwarder/src/lib.rs, fees/src/lib.rs).
use aurora_forwarder_contrac.Forwarder.Contract.Spec.{IsReady}
use aurora_forwarder_contrac.Base.{
  ℕ, ◌+◌, ◌-◌, ◌≤◌, ◌≡◌, ◌∙◌, ap, true, some, List, [], ◌∷◌, ◌++◌, length, arith,
}
use aurora_forwarder_contrac.BTreeSet
use aurora_forwarder_contrac.BTreeSet.{Ord}
use aurora_forwarder_contrac.Crates.{Crates, IsDocumented}
use aurora_forwarder_contrac.Fees.{FeesCalculator}
use aurora_forwarder_contrac.Fees.Bounds.{calculate_fees-bounds}
use aurora_forwarder_contrac.Fees.Interface.{
  Readers, AreDocumented, calculate_fees_call, calculate_fees_call-params, calculate_fees-lt,
}
use aurora_forwarder_contrac.Forwarder.AccountId.{AccountId}
use aurora_forwarder_contrac.Forwarder.Contract.Fees.{fees_promises, token_finish, token_fees}
use aurora_forwarder_contrac.Forwarder.Contract.Finish.{transfer_of, fee_transfer}
use aurora_forwarder_contrac.Forwarder.Contract.Forward.{token_promises}
use aurora_forwarder_contrac.Forwarder.Decimal.Parse.{vec_to_number-lt}
use aurora_forwarder_contrac.Forwarder.Flow.{IsDelivery}
use aurora_forwarder_contrac.Forwarder.Flow.Token.{IsTokenBegin, IsShort, token_flow}
use aurora_forwarder_contrac.Forwarder.Host.Machine.{Machine}
use aurora_forwarder_contrac.Forwarder.Params.{State}
use aurora_forwarder_contrac.Forwarder.Params.Layout.{fees_params_bytes}
use aurora_forwarder_contrac.Forwarder.Promise.{PromiseResult}
use aurora_forwarder_contrac.Forwarder.Safety.{Call, calls}
use aurora_forwarder_contrac.Protocol.Answers.{result_of, fee_for}

module _ {Account : Type 0} (o : Ord Account) {lib : Crates} (doc : IsDocumented lib)
    {r : Readers Account} {account : AccountId → Account} (sdk : AreDocumented lib r account)
    {s : State} {self token : AccountId} {amount percent : ℕ} {results : ℕ → PromiseResult} where
  -- A forward of a token over both contracts, whatever calls come between, while the account exists. On a
  -- forwarder in place `forward` is called with one yoctoNEAR and a token other
  -- than `near` that the fees contract supports at a percent of at most 1000. Any calls `cs` follow,
  -- and the callback on the token's answer, a positive balance in at most 256 bytes; any calls `ds`
  -- follow, and the callback on the fees contract's answer, the result of its `calculate_fees` on
  -- the very arguments that the forwarder has sent. Then `forward` schedules exactly the balance
  -- query with its callback, the first callback exactly the fee query with its callback, and the
  -- second exactly the transfer of the balance less the fee to the target network and behind it the
  -- transfer of the fee to the fees contract, and together these two move the whole balance. The
  -- texts of the two transfers have to fit their buffers.
  pub forward_whole :
      (fees : FeesCalculator Account) (m : Machine) (c d e : Call) (cs ds : List Call)
      → IsReady lib s self m
      → IsTokenBegin lib token amount results m c
      → 1 ≤ amount
      → fees.percent ≡ some percent
      → percent ≤ 1000
      → BTreeSet.contains o fees.supported_tokens (account token) ≡ true
      → let m' = calls lib m (c ∷ cs) in
        let m'' = calls lib m' (d ∷ ds) in
        let fee = fee_for o account fees s token amount in
        results (length m'.promises)
          ≡ result_of
              (calculate_fees_call lib r o fees (fees_params_bytes lib (token_fees s token amount)))
        → IsShort s amount fee
        → IsDelivery results m'.promises self.as_bytes (length m.promises + 1) d
        → IsDelivery results m''.promises self.as_bytes (length m'.promises + 1) e
        → ((calls lib m (c ∷ [])).promises
            ≡ m.promises ++ token_promises lib token self (length m.promises))
          × ((calls lib m' (d ∷ [])).promises
              ≡ m'.promises ++ fees_promises lib s self token amount (length m'.promises))
          × ((calls lib m'' (e ∷ [])).promises
              ≡ m''.promises
                ++ transfer_of lib s (token_finish token amount) fee
                  ∷ fee_transfer s (token_finish token amount) fee (length m''.promises)
                  ∷ [])
          × ((amount - fee) + fee ≡ amount)
  forward_whole fees m c d e cs ds ready begin positive set low supported answer short first
        second =
      let (due, most) =
        calculate_fees-bounds o fees percent amount (account token) (account s.target_network)
          s.target_address.raw set low supported positive in
      let fee_given =
        answer
        ∙ ap result_of (
            calculate_fees_call-params o doc sdk fees (token_fees s token amount)
              (vec_to_number-lt begin.balance_text begin.balance_read) begin.token_valid
              ready.state.network ready.state.address) in
      let (begun, asked, finished) =
        token_flow doc m c d e cs ds ready begin
          (calculate_fees-lt o fees amount (account token) (account s.target_network)
            s.target_address.raw)
          due fee_given short first second in
      (begun, asked, finished, omega (arith, most))
