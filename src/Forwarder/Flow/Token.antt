-- ===== src/Forwarder/Flow/Token.antt =====
-- The forward of a token from its first call to the transfers (forwarder/src/lib.rs).
use aurora_forwarder_contrac.Base.{
  ℕ, ◌+◌, ◌-◌, ◌^◌, ◌≤◌, ◌<◌, ◌≡◌, ◌≢◌, ◌∙◌, ap, refl, some, List, [], ◌∷◌, ◌++◌, Bytes, length, ok,
  arith,
}
use aurora_forwarder_contrac.Crates.{Crates, IsDocumented}
use aurora_forwarder_contrac.Forwarder.AccountId.{AccountId}
use aurora_forwarder_contrac.Forwarder.AccountId.Codec.{IsAccount, encoding}
use aurora_forwarder_contrac.Forwarder.Contract.Constants.{near}
use aurora_forwarder_contrac.Forwarder.Contract.Exports.{Entry}
use aurora_forwarder_contrac.Forwarder.Contract.Fees.{
  fees_promises, token_finish, calculate_fees_callback-fees,
}
use aurora_forwarder_contrac.Forwarder.Contract.Finish.{
  IsFinish, transfer_of, fee_transfer, finish-split,
}
use aurora_forwarder_contrac.Forwarder.Contract.Forward.{token_promises, forward-token}
use aurora_forwarder_contrac.Forwarder.Contract.Spec.{IsReady, IsReady-same}
use aurora_forwarder_contrac.Forwarder.Decimal.{vec_to_number}
use aurora_forwarder_contrac.Forwarder.Decimal.Parse.{vec_to_number-lt}
use aurora_forwarder_contrac.Forwarder.Decimal.Print.{decimal}
use aurora_forwarder_contrac.Forwarder.Flow.Log.{calls_grow}
use aurora_forwarder_contrac.Forwarder.Flow.Steps.{
  after, name-fees, name-finish, after-Schedules, delivered, answer_of, behind,
}
use aurora_forwarder_contrac.Forwarder.Flow.{IsDelivery}
use aurora_forwarder_contrac.Forwarder.Host.Lawful.{machine-IsLawful}
use aurora_forwarder_contrac.Forwarder.Host.Machine.{Machine, Promise, result_at}
use aurora_forwarder_contrac.Forwarder.Params.{State}
use aurora_forwarder_contrac.Forwarder.Promise.{PromiseResult, successful}
use aurora_forwarder_contrac.Forwarder.Safety.{Call, receive, calls}
use aurora_forwarder_contrac.Forwarder.Lifecycle.History.{calls-IsReady}

-- The first call of a token's forward, where `results` says how the promises end: the token answers
-- with the balance.
pub record IsTokenBegin (lib : Crates) (token : AccountId) (amount : ℕ)
    (results : ℕ → PromiseResult) (m : Machine) (begin : Call) : Type 0 where
  pub entry : begin.entry ≡ Entry.forward
  pub one_yocto : begin.deposit ≡ 1
  pub token_valid : IsAccount token
  pub token_given : begin.input_bytes ≡ encoding lib token
  pub not_near : token.as_bytes ≢ near
  pub balance_text : Bytes
  pub balance : results (length m.promises) ≡ successful balance_text
  pub balance_short : length balance_text ≤ 256
  pub balance_read : vec_to_number balance_text ≡ ok amount

-- The texts of the two transfers fit their buffers.
pub record IsShort (s : State) (amount fee : ℕ) : Type 0 where
  pub transfer : length s.target_network.as_bytes + length (decimal (amount - fee)) ≤ 49
  pub fee_transfer : length s.fees_contract_id.as_bytes + length (decimal fee) ≤ 98

module _ {lib : Crates} (doc : IsDocumented lib) {s : State} {self token : AccountId} {amount : ℕ}
    {results : ℕ → PromiseResult} where
  pub first_call :
      (m : Machine) (c : Call)
      → IsReady lib s self m
      → IsTokenBegin lib token amount results m c
      → (after lib m c).promises ≡ m.promises ++ token_promises lib token self (length m.promises)
  first_call m c ready f = after-Schedules lib m c _ 1 (
      rw f.entry (
        forward-token machine-IsLawful doc (receive c m) ready.valid ready.here f.one_yocto
          f.token_valid f.token_given f.not_near))

  pub second_call :
      (qs : List Promise) (m m' : Machine) (c d : Call)
      → IsReady lib s self m'
      → IsTokenBegin lib token amount results m c
      → m'.promises ≡ m.promises ++ (token_promises lib token self (length m.promises) ++ qs)
      → IsDelivery results m'.promises self.as_bytes (length m.promises + 1) d
      → (after lib m' d).promises
        ≡ m'.promises ++ fees_promises lib s self token amount (length m'.promises)
  second_call qs m m' c d ready f log delivery =
      let (_, named, caller, given, _, found) =
        delivered results self.as_bytes d m.promises _ 1 log refl delivery in
      let answer = answer_of results m.promises _ 0 (length m.promises) (omega arith) log refl in
      let result : result_at d.results 0 ≡ some (successful f.balance_text) =
        ap (λ (l : List PromiseResult). result_at l 0) (found ∙ answer) ∙ ap some f.balance in
      after-Schedules lib m' d _ 1 (
        rw (name-fees d.entry named) (
          calculate_fees_callback-fees machine-IsLawful doc (receive d m') token f.balance_text
            amount (IsReady-same refl refl ready) caller f.token_valid given result f.balance_short
            f.balance_read))

  third_call :
      {fee : ℕ} (qs : List Promise) (m m' m'' : Machine) (c e : Call)
      → IsReady lib s self m''
      → IsTokenBegin lib token amount results m c
      → fee < 2 ^ 128
      → 0 < fee
      → results (length m'.promises) ≡ successful (lib.write_u128 fee)
      → IsShort s amount fee
      → m''.promises
        ≡ m'.promises ++ (fees_promises lib s self token amount (length m'.promises) ++ qs)
      → IsDelivery results m''.promises self.as_bytes (length m'.promises + 1) e
      → (after lib m'' e).promises
        ≡ m''.promises
          ++ transfer_of lib s (token_finish token amount) fee
            ∷ fee_transfer s (token_finish token amount) fee (length m''.promises)
            ∷ []
  third_call {fee} qs m m' m'' c e ready f fits due fee_given short log delivery =
      let (_, named, caller, given, _, found) =
        delivered results self.as_bytes e m'.promises _ 1 log refl delivery in
      let answer = answer_of results m'.promises _ 0 (length m'.promises) (omega arith) log refl in
      let finish : IsFinish lib s self (token_finish token amount) fee (receive e m'') = record {
        ready = IsReady-same refl refl ready;
        caller = caller;
        amount_fits = vec_to_number-lt f.balance_text f.balance_read;
        token = f.token_valid;
        index_fits = omega arith;
        given = given;
        fee_fits = fits;
        result =
            ap (λ (l : List PromiseResult). result_at l 0) (found ∙ answer) ∙ ap some fee_given;
      } in
      after-Schedules lib m'' e _ 1 (
        rw (name-finish e.entry named) (
          finish-split machine-IsLawful doc (receive e m'') finish due short.transfer
            short.fee_transfer))

  -- A token's forward comes to its end, whatever calls come between. On a contract in place,
  -- `forward` is called with a token, and later the host makes the callback on the token's answer,
  -- which is a balance, and still later the callback on the fees contract's answer, which is a
  -- positive fee. Any calls `cs` and `ds` may come before the two callbacks. Then the first call
  -- schedules the balance query with its callback, the second the fee query with its callback, and
  -- the third the transfer of the balance less the fee to the target network, and behind it the
  -- transfer of the fee to the fees contract. The texts of the two transfers have to fit their
  -- buffers.
  pub token_flow :
      {fee : ℕ} (m : Machine) (c d e : Call) (cs ds : List Call)
      → IsReady lib s self m
      → IsTokenBegin lib token amount results m c
      → fee < 2 ^ 128
      → 0 < fee
      → let m' = calls lib m (c ∷ cs) in
        let m'' = calls lib m' (d ∷ ds) in
        results (length m'.promises) ≡ successful (lib.write_u128 fee)
        → IsShort s amount fee
        → IsDelivery results m'.promises self.as_bytes (length m.promises + 1) d
        → IsDelivery results m''.promises self.as_bytes (length m'.promises + 1) e
        → ((calls lib m (c ∷ [])).promises
            ≡ m.promises ++ token_promises lib token self (length m.promises))
          × ((calls lib m' (d ∷ [])).promises
              ≡ m'.promises ++ fees_promises lib s self token amount (length m'.promises))
          × ((calls lib m'' (e ∷ [])).promises
              ≡ m''.promises
                ++ transfer_of lib s (token_finish token amount) fee
                  ∷ fee_transfer s (token_finish token amount) fee (length m''.promises)
                  ∷ [])
  unfolding calls
  token_flow {fee} m c d e cs ds ready f fits due fee_given short first_delivery second_delivery =
      let m' = calls lib m (c ∷ cs) in
      let m'' = calls lib m' (d ∷ ds) in
      let ready' = calls-IsReady doc ready.valid s m (c ∷ cs) ready in
      let ready'' = calls-IsReady doc ready.valid s m' (d ∷ ds) ready' in
      let begun = calls-IsReady doc ready.valid s m (c ∷ []) ready in
      let asked = calls-IsReady doc ready.valid s m' (d ∷ []) ready' in
      let log' = first_call m c ready f in
      let (qs, more) = calls_grow doc (after lib m c) cs begun in
      let log'' =
        second_call qs m m' c d ready' f (more ∙ behind m.promises _ qs log') first_delivery in
      let (rs, still_more) = calls_grow doc (after lib m' d) ds asked in
      (
        log',
        log'',
        third_call rs m m' m'' c e ready'' f fits due fee_given short
            (still_more ∙ behind m'.promises _ rs log'') second_delivery,
      )
