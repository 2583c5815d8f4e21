-- ===== src/Forwarder/Flow/Native.antt =====
-- The forward of native NEAR from its first call to the transfers (forwarder/src/lib.rs).
use aurora_forwarder_contrac.Base.{
  ℕ, ◌+◌, ◌-◌, ◌^◌, ◌≤◌, ◌<◌, ◌≡◌, ◌∙◌, ap, refl, some, List, [], ◌∷◌, ◌++◌, length, get_elem?,
  arith,
}
use aurora_forwarder_contrac.Crates.{Crates, IsDocumented}
use aurora_forwarder_contrac.Forwarder.AccountId.{AccountId}
use aurora_forwarder_contrac.Forwarder.AccountId.Codec.{IsAccount, encoding}
use aurora_forwarder_contrac.Forwarder.Contract.Constants.{near, minimum_balance}
use aurora_forwarder_contrac.Forwarder.Contract.Exports.{Entry}
use aurora_forwarder_contrac.Forwarder.Contract.Finish.{
  IsFinish, transfer_of, fee_transfer, finish-split,
}
use aurora_forwarder_contrac.Forwarder.Contract.Forward.{forward-near}
use aurora_forwarder_contrac.Forwarder.Contract.Native.{native_promises, native_finish}
use aurora_forwarder_contrac.Forwarder.Contract.Spec.{IsReady, IsReady-same}
use aurora_forwarder_contrac.Forwarder.Flow.{IsDelivery, answers}
use aurora_forwarder_contrac.Forwarder.Flow.Log.{calls_grow}
use aurora_forwarder_contrac.Forwarder.Flow.Steps.{
  behind, after, name-finish, after-Schedules, delivered, scheduled_at,
}
use aurora_forwarder_contrac.Forwarder.Flow.Token.{IsShort}
use aurora_forwarder_contrac.Forwarder.Host.Lawful.{machine-IsLawful}
use aurora_forwarder_contrac.Forwarder.Host.Machine.{Machine, Promise, result_at}
use aurora_forwarder_contrac.Forwarder.Params.{State}
use aurora_forwarder_contrac.Forwarder.Promise.{PromiseResult, successful}
use aurora_forwarder_contrac.Forwarder.Safety.{Call, receive, calls}
use aurora_forwarder_contrac.Forwarder.Lifecycle.History.{calls-IsReady}

-- The first call of a forward of native NEAR, of which `amount` is above the reserve.
pub record IsNearBegin (lib : Crates) (amount : ℕ) (begin : Call) : Type 0 where
  pub entry : begin.entry ≡ Entry.forward
  pub one_yocto : begin.deposit ≡ 1
  pub token : AccountId
  pub token_valid : IsAccount token
  pub token_given : begin.input_bytes ≡ encoding lib token
  pub is_near : token.as_bytes ≡ near
  pub balance : begin.balance ≡ minimum_balance + amount
  pub balance_fits : begin.balance < 2 ^ 128
  pub some_left : 1 ≤ amount

module _ {lib : Crates} (doc : IsDocumented lib) {s : State} {self : AccountId} {amount : ℕ} where
  pub first_call :
      (m : Machine) (c : Call)
      → IsReady lib s self m
      → IsNearBegin lib amount c
      → (after lib m c).promises
        ≡ m.promises ++ native_promises lib s self amount (length m.promises)
  first_call m c ready b =
      let above : c.balance - minimum_balance ≡ amount = omega (arith, b.balance) in
      after-Schedules lib m c _ 3 (
        rw (← above) (
          rw b.entry (
            forward-near machine-IsLawful doc (receive c m) (IsReady-same refl refl ready)
              b.one_yocto b.token_valid b.token_given b.is_near b.balance_fits
              (omega (arith, b.balance, b.some_left)))))

  pub second_call :
      {fee : ℕ} (qs : List Promise) (results : ℕ → PromiseResult) (m m' : Machine) (d : Call)
      → IsReady lib s self m'
      → amount < 2 ^ 128
      → fee < 2 ^ 128
      → 0 < fee
      → results (length m.promises + 1) ≡ successful (lib.write_u128 fee)
      → IsShort s amount fee
      → m'.promises ≡ m.promises ++ (native_promises lib s self amount (length m.promises) ++ qs)
      → IsDelivery results m'.promises self.as_bytes (length m.promises + 3) d
      → (after lib m' d).promises
        ≡ m'.promises
          ++ transfer_of lib s (native_finish s amount) fee
            ∷ fee_transfer s (native_finish s amount) fee (length m'.promises)
            ∷ []
  second_call {fee} qs results m m' d ready amount_fits fits due fee_given short log delivery =
      let (_, named, caller, given, _, found) =
        delivered results self.as_bytes d m.promises _ 3 log refl delivery in
      let answer : answers results (length m.promises + 2)
            (get_elem? m'.promises (length m.promises + 2))
          ≡ results (length m.promises) ∷ results (length m.promises + 1) ∷ [] =
        ap (answers results (length m.promises + 2)) (scheduled_at m.promises _ 2 log) in
      let finish : IsFinish lib s self (native_finish s amount) fee (receive d m') = record {
        ready = IsReady-same refl refl ready;
        caller = caller;
        amount_fits = amount_fits;
        token = ready.state.wnear;
        index_fits = omega arith;
        given = given;
        fee_fits = fits;
        result =
            ap (λ (l : List PromiseResult). result_at l 1) (found ∙ answer) ∙ ap some fee_given;
      } in
      after-Schedules lib m' d _ 1 (
        rw (name-finish d.entry named) (
          finish-split machine-IsLawful doc (receive d m') finish due short.transfer
            short.fee_transfer))

  -- A forward of native NEAR comes to its end, whatever calls come between. On a contract in place
  -- whose balance is above the reserve by `amount`, `forward` is called with `near`, and later the
  -- host makes the callback on the wrap and on the fees contract's answer, which is a positive fee.
  -- Any calls `cs` may come before the callback. Then the first call schedules the wrap of `amount`,
  -- the fee query, the two joined and the callback, and the second the transfer of `amount` less the
  -- fee to the target network, and behind it the transfer of the fee to the fees contract. The texts
  -- of the two transfers have to fit their buffers.
  pub near_flow :
      {fee : ℕ} (results : ℕ → PromiseResult) (m : Machine) (c d : Call) (cs : List Call)
      → IsReady lib s self m
      → IsNearBegin lib amount c
      → fee < 2 ^ 128
      → 0 < fee
      → results (length m.promises + 1) ≡ successful (lib.write_u128 fee)
      → IsShort s amount fee
      → let m' = calls lib m (c ∷ cs) in
        IsDelivery results m'.promises self.as_bytes (length m.promises + 3) d
        → ((calls lib m (c ∷ [])).promises
            ≡ m.promises ++ native_promises lib s self amount (length m.promises))
          × ((calls lib m' (d ∷ [])).promises
              ≡ m'.promises
                ++ transfer_of lib s (native_finish s amount) fee
                  ∷ fee_transfer s (native_finish s amount) fee (length m'.promises)
                  ∷ [])
  unfolding calls
  near_flow {fee} results m c d cs ready b fits due fee_given short delivery =
      let log' = first_call m c ready b in
      let begun = calls-IsReady doc ready.valid s m (c ∷ []) ready in
      let (qs, more) = calls_grow doc (after lib m c) cs begun in
      (
        log',
        second_call qs results m (calls lib m (c ∷ cs)) d
            (calls-IsReady doc ready.valid s m (c ∷ cs) ready)
            (omega (arith, b.balance, b.balance_fits)) fits due fee_given short
            (more ∙ behind m.promises _ qs log') delivery,
      )
