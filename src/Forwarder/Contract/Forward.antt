-- ===== src/Forwarder/Contract/Forward.antt =====
-- `forward`: its guard, its choice between native NEAR and a token, and what each schedules.
use aurora_forwarder_contrac.Base.{
  ℕ, ◌-◌, ◌^◌, ◌<◌, ◌≤◌, ◌≡◌, ◌≢◌, refl, sym, false, List, [], ◌∷◌, append-nil, codes, bytes_eq,
  bytes_eq_iff, length, if◌then◌else◌, utf8, trap, arith,
}
use aurora_forwarder_contrac.Base.Results.{Outcome}
use aurora_forwarder_contrac.Crates.{Crates, IsDocumented}
use aurora_forwarder_contrac.Forwarder.AccountId.{AccountId}
use aurora_forwarder_contrac.Forwarder.AccountId.Codec.{
  IsAccount, IsAccount-bounds, encoding, length-encoding,
}
use aurora_forwarder_contrac.Forwarder.Host.{Host}
use aurora_forwarder_contrac.Forwarder.Host.Machine.{
  Machine, machine, Promise, call, callback, set_register,
}
use aurora_forwarder_contrac.Forwarder.Host.Lawful.{IsLawful, seen}
use aurora_forwarder_contrac.Forwarder.Json.Fits.{balance_json, ft_balance_args-json}
use aurora_forwarder_contrac.Forwarder.Params.{State, read_forward_params, try_from_slice}
use aurora_forwarder_contrac.Forwarder.Params.Buffer.{to_borsh-account}
use aurora_forwarder_contrac.Forwarder.Params.RoundTrip.{read_forward_params-encoding}
use aurora_forwarder_contrac.Forwarder.Runtime.Run.{
  assert_one_yocto-one, assert_one_yocto-other, read_input_borsh-run, current_account_id-run,
}
use aurora_forwarder_contrac.Forwarder.Runtime.Steps.{
  Ends, step, stop, last, ids, lift-run, unwrap-run, unwrap_err-run,
  promise_create_with_callback-run, promise_return-run,
}
use aurora_forwarder_contrac.Forwarder.Contract.{
  enter, forward, forward_native_token, forward_nep141_token,
}
use aurora_forwarder_contrac.Forwarder.Contract.Exports.{Entry}
use aurora_forwarder_contrac.Forwarder.Contract.Constants.{
  near, minimum_balance, ft_balance_gas, calculate_fees_callback_gas,
}
use aurora_forwarder_contrac.Forwarder.Contract.Spec.{
  IsReady, Schedules, Refuses, set_register-IsReady, over_host,
}
use aurora_forwarder_contrac.Forwarder.Contract.Native.{
  native_promises, native-Schedules, native-Refuses,
}

-- The promises of a forward of a token, the first of them number `n`.
abbrev pub token_promises : Crates → AccountId → AccountId → ℕ → List Promise
token_promises lib token self n =
    call token.as_bytes (codes "ft_balance_of") (balance_json self) 0 ft_balance_gas
    ∷ callback n self.as_bytes (codes "calculate_fees_callback") (encoding lib token) 0
        calculate_fees_callback_gas
    ∷ []

module _ {lib : Crates} (doc : IsDocumented lib) where
  pub nep141-Schedules :
      (token self : AccountId) (m : Machine)
      → IsAccount token
      → IsAccount self
      → m.current ≡ self.as_bytes
      → Ends
          (Schedules m (token_promises lib token self (length m.promises)) [] 1)
          (forward_nep141_token machine lib token m)
  unfolding forward_nep141_token
  nep141-Schedules token self m valid self_valid here =
      step _ _ (lift-run _ (to_borsh-account doc token valid)) (
        step _ _ (unwrap-run _ _) (
          step _ _ (current_account_id-run doc self _ self_valid here) (
            step _ _ (lift-run _ (ft_balance_args-json doc self self_valid)) (
              step _ _ (current_account_id-run doc self _ self_valid here) (
                step _ _ (promise_create_with_callback-run _ _) (
                  last (promise_return-run _ _)
                    (refl, simp ids, sym (append-nil _), simp ids, refl)))))))

  -- One yocto and a token's name lead to the branch that the name chooses.
  dispatch :
      (token : AccountId) (m : Machine) {Q : Outcome (Unit {0}) × Machine → Type 0}
      → m.deposit ≡ 1
      → IsAccount token
      → m.input_bytes ≡ encoding lib token
      → Ends Q (
          (if bytes_eq token.as_bytes near
              then forward_native_token machine lib
              else forward_nep141_token machine lib token)
            (set_register 1 m.input_bytes m))
      → Ends Q (forward machine lib m)
  unfolding forward
  dispatch token m one valid given rest = step _ _ (assert_one_yocto-one m one) (
      step _ _ (unwrap-run _ _) (
        step _ _
          (read_input_borsh-run (try_from_slice (read_forward_params lib)) m
            (rw given (omega (arith, length-encoding doc token, IsAccount-bounds token valid)))
            (rw given (read_forward_params-encoding doc token valid)))
          (step _ _ (unwrap-run _ _) rest)))

module _ {h : Host} {view : h.World → Machine} (law : IsLawful h view) {lib : Crates}
    (doc : IsDocumented lib) where
  -- A call of `forward` with any deposit but one yoctoNEAR panics with `ERR_ONE_YOCTO_ATACH`; nothing
  -- is scheduled or stored, whatever the input is.
  pub forward-one_yocto :
      (w : h.World)
      → (view w).deposit < 2 ^ 128
      → (view w).deposit ≢ 1
      → Refuses
          (view w)
          (utf8 (codes "ERR_ONE_YOCTO_ATACH"))
          (seen view (enter h lib Entry.forward w))
  unfolding enter forward
  forward-one_yocto w bounded other =
      over_host law lib Entry.forward w (Refuses (view w) (utf8 (codes "ERR_ONE_YOCTO_ATACH"))) (
        step _ _ (assert_one_yocto-other (view w) bounded other)
          (stop _ _ (unwrap_err-run _ _) (refl, refl, refl, refl, refl)))

  -- With one yoctoNEAR and the token id `near`, `forward` schedules exactly four promises: the wrap
  -- of the balance above the reserve, the fee query for that amount, the two joined, and the
  -- callback of this contract after them, which it returns. Storage stays as it is.
  pub forward-near :
      (w : h.World) {s : State} {self token : AccountId}
      → IsReady lib s self (view w)
      → (view w).deposit ≡ 1
      → IsAccount token
      → (view w).input_bytes ≡ encoding lib token
      → token.as_bytes ≡ near
      → (view w).balance < 2 ^ 128
      → minimum_balance < (view w).balance
      → Schedules
          (view w)
          (native_promises lib s self
            ((view w).balance - minimum_balance)
            (length (view w).promises))
          []
          3
          (seen view (enter h lib Entry.forward w))
  unfolding enter
  forward-near w {s} {self} {token} r one valid given native bounded enough =
      let m = view w in
      over_host law lib Entry.forward w
        (Schedules m (native_promises lib s self (m.balance - minimum_balance) (length m.promises))
          [] 3)
        (dispatch doc token m one valid given (
          rw ((bytes_eq_iff token.as_bytes near).1 native) (
            native-Schedules doc (set_register 1 m.input_bytes m)
              (set_register-IsReady 1 m.input_bytes r) bounded enough)))

  -- With one yoctoNEAR and the token id `near`, a balance at or below the reserve traps, with
  -- nothing scheduled or stored.
  pub forward-near_low :
      (w : h.World) {token : AccountId}
      → (view w).deposit ≡ 1
      → IsAccount token
      → (view w).input_bytes ≡ encoding lib token
      → token.as_bytes ≡ near
      → (view w).balance ≤ minimum_balance
      → Refuses (view w) trap (seen view (enter h lib Entry.forward w))
  unfolding enter
  forward-near_low w {token} one valid given native low =
      let m = view w in
      over_host law lib Entry.forward w (Refuses m trap) (
        dispatch doc token m one valid given (
          rw ((bytes_eq_iff token.as_bytes near).1 native)
            (native-Refuses lib (set_register 1 m.input_bytes m) low)))

  -- With one yoctoNEAR and any other valid token id, `forward` schedules exactly two promises: the
  -- query of this account's balance of the token, and after it the callback of this contract, whose
  -- argument is the token's id. Storage stays as it is.
  pub forward-token :
      (w : h.World) {self token : AccountId}
      → IsAccount self
      → (view w).current ≡ self.as_bytes
      → (view w).deposit ≡ 1
      → IsAccount token
      → (view w).input_bytes ≡ encoding lib token
      → token.as_bytes ≢ near
      → Schedules
          (view w)
          (token_promises lib token self (length (view w).promises))
          []
          1
          (seen view (enter h lib Entry.forward w))
  unfolding enter
  forward-token w {self} {token} self_valid here one valid given other =
      let m = view w in
      let differs : bytes_eq token.as_bytes near ≡ false =
        ground (arith, bytes_eq_iff token.as_bytes near) in
      over_host law lib Entry.forward w
        (Schedules m (token_promises lib token self (length m.promises)) [] 1)
        (dispatch doc token m one valid given (
          rw differs (
            nep141-Schedules doc token self (set_register 1 m.input_bytes m) valid self_valid
              here)))
