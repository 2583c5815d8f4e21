-- ===== src/Forwarder/Contract/Errors/Begin.antt =====
-- `new`, `forward` and `destroy` (forwarder/src/lib.rs) on an input that they cannot read, and with
-- no state.
use aurora_forwarder_contrac.Base.{
  ◌^◌, ◌≤◌, ◌<◌, ◌≡◌, ◌∙◌, refl, ap, none, codes, length, err, utf8, trap, bytes_eq_iff, ◌≢◌,
  bytes_eq, false, ok, arith,
}
use aurora_forwarder_contrac.Base.Results.{Outcome}
use aurora_forwarder_contrac.Crates.{Crates, IsDocumented, IoError}
use aurora_forwarder_contrac.Forwarder.AccountId.{AccountId}
use aurora_forwarder_contrac.Forwarder.Contract.{
  enter, new, forward, destroy, refuse_initialized, forward_native_token, forward_nep141_token,
}
use aurora_forwarder_contrac.Forwarder.Contract.Constants.{minimum_balance, near}
use aurora_forwarder_contrac.Forwarder.Contract.Errors.{parse_input, IsRead}
use aurora_forwarder_contrac.Forwarder.Contract.Exports.{Entry}
use aurora_forwarder_contrac.Forwarder.AccountId.Codec.{IsAccount}
use aurora_forwarder_contrac.Forwarder.Contract.Init.{save-run, save-full}
use aurora_forwarder_contrac.Forwarder.Params.Layout.{IsState, names_length}
use aurora_forwarder_contrac.Forwarder.Contract.Native.{native-Refuses, forwardable-some}
use aurora_forwarder_contrac.Forwarder.Contract.Spec.{Refuses}
use aurora_forwarder_contrac.Forwarder.Host.Machine.{Machine, machine, set_register}
use aurora_forwarder_contrac.Forwarder.Params.{
  ForwardParams, state_storage_key, read_forward_params, try_from_slice, State,
}
use aurora_forwarder_contrac.Forwarder.Runtime.Exec
use aurora_forwarder_contrac.Forwarder.Runtime.Run.{
  assert_one_yocto-one, account_balance-run, load-run_none, read_input_borsh-full,
  read_input_borsh-unread, read_input_borsh-run, current_account_id-run,
}
use aurora_forwarder_contrac.Forwarder.Runtime.Steps.{
  Ends, step, stop, unwrap-run, unwrap_err-run, expect_none-run, pure-run, or_trap-run,
  or_trap-none-run, last, add_key-run, promise_return-run,
}

module _ (lib : Crates) (m : Machine) where
  pub new-long_input :
      m.storage state_storage_key ≡ none
      → 256 < length m.input_bytes
      → length m.input_bytes < 2 ^ 32
      → Ends (Refuses m trap) (enter machine lib Entry.new m)
  unfolding enter new refuse_initialized
  new-long_input absent long addressable = step _ _ (load-run_none lib m absent) (
      step _ _ (pure-run _ _)
        (stop _ _ (read_input_borsh-full _ m long addressable) (refl, refl, refl, refl, refl)))

  pub new-bad_input :
      {x : IoError}
      → m.storage state_storage_key ≡ none
      → length m.input_bytes ≤ 256
      → parse_input lib Entry.new m.input_bytes ≡ err x
      → Ends (Refuses m (utf8 (codes "ERR_BORCH_DESERIALIZE"))) (enter machine lib Entry.new m)
  unfolding enter new refuse_initialized
  new-bad_input absent short unread = step _ _ (load-run_none lib m absent) (
      step _ _ (pure-run _ _) (
        step _ _ (read_input_borsh-unread _ m short unread)
          (stop _ _ (unwrap_err-run _ _) (refl, refl, refl, refl, refl))))

  pub forward-long_input :
      m.deposit ≡ 1
      → 256 < length m.input_bytes
      → length m.input_bytes < 2 ^ 32
      → Ends (Refuses m trap) (enter machine lib Entry.forward m)
  unfolding enter forward
  forward-long_input one long addressable = step _ _ (assert_one_yocto-one m one) (
      step _ _ (unwrap-run _ _)
        (stop _ _ (read_input_borsh-full _ m long addressable) (refl, refl, refl, refl, refl)))

  pub forward-bad_input :
      {x : IoError}
      → m.deposit ≡ 1
      → length m.input_bytes ≤ 256
      → parse_input lib Entry.forward m.input_bytes ≡ err x
      → Ends (Refuses m (utf8 (codes "ERR_BORCH_DESERIALIZE"))) (enter machine lib Entry.forward m)
  unfolding enter forward
  forward-bad_input one short unread = step _ _ (assert_one_yocto-one m one) (
      step _ _ (unwrap-run _ _) (
        step _ _ (read_input_borsh-unread _ m short unread)
          (stop _ _ (unwrap_err-run _ _) (refl, refl, refl, refl, refl))))

  native-no_state :
      m.balance < 2 ^ 128
      → minimum_balance < m.balance
      → m.storage state_storage_key ≡ none
      → Ends (Refuses m trap) (forward_native_token machine lib m)
  unfolding forward_native_token
  native-no_state bounded enough absent = step _ _ (account_balance-run m bounded) (
      step _ _ (ap (λ o. Exec.or_trap o m) (forwardable-some m.balance enough) ∙ or_trap-run _ m) (
        step _ _ (load-run_none lib m absent)
          (stop _ _ (or_trap-none-run _) (refl, refl, refl, refl, refl))))

  pub destroy-no_state :
      m.storage state_storage_key ≡ none
      → Ends (Refuses m (utf8 (codes "No state"))) (enter machine lib Entry.destroy m)
  unfolding enter destroy
  destroy-no_state absent =
      step _ _ (load-run_none lib m absent)
        (stop _ _ (expect_none-run _ _) (refl, refl, refl, refl, refl))

module _ {lib : Crates} (doc : IsDocumented lib) {self : AccountId} (m : Machine) {s : State}
    (r : IsRead lib self m Entry.new s) (valid : IsState s) where
  pub new-long_state : 220 < names_length s → Ends (Refuses m trap) (enter machine lib Entry.new m)
  unfolding enter new refuse_initialized
  new-long_state long = step _ _ (load-run_none lib m r.admitted) (
      step _ _ (pure-run _ _) (
        step _ _ (read_input_borsh-run _ m r.short r.parsed) (
          step _ _ (unwrap-run _ _) (
            stop _ _ (save-full doc s (set_register 1 m.input_bytes m) valid long)
              (refl, refl, refl, refl, refl)))))

  -- A state that fits is stored.
  pub new-goes_through :
      names_length s ≤ 220
      → IsAccount self
      → m.current ≡ self.as_bytes
      → Ends (λ o. o.0 ≡ ok tt) (enter machine lib Entry.new m)
  unfolding enter new refuse_initialized
  new-goes_through fits self_valid here = step _ _ (load-run_none lib m r.admitted) (
      step _ _ (pure-run _ _) (
        step _ _ (read_input_borsh-run _ m r.short r.parsed) (
          step _ _ (unwrap-run _ _) (
            step _ _ (save-run doc s (set_register 1 m.input_bytes m) valid fits r.admitted) (
              step _ _ (current_account_id-run doc self _ self_valid here)
                (step _ _ (add_key-run _ _ _ _) (last (promise_return-run _ _) refl)))))))

module _ {lib : Crates} {self : AccountId} (m : Machine) {p : ForwardParams}
    (r : IsRead lib self m Entry.forward p) (other : p.token_id.as_bytes ≢ near) where
  pub forward-to_token :
      {Q : Outcome (Unit {0}) × Machine → Type 0}
      → Ends Q (forward_nep141_token machine lib p.token_id (set_register 1 m.input_bytes m))
      → Ends Q (enter machine lib Entry.forward m)
  unfolding enter forward
  forward-to_token ends =
      let differs : bytes_eq p.token_id.as_bytes near ≡ false =
        ground (arith, bytes_eq_iff p.token_id.as_bytes near) in
      step _ _ (assert_one_yocto-one m r.admitted) (
        step _ _ (unwrap-run _ _) (
          step _ _
            (read_input_borsh-run (try_from_slice (read_forward_params lib)) m r.short r.parsed)
            (step _ _ (unwrap-run _ _) (rw differs ends))))

module _ {lib : Crates} {self : AccountId} (m : Machine) {p : ForwardParams}
    (r : IsRead lib self m Entry.forward p) (native : p.token_id.as_bytes ≡ near) where
  pub forward-to_native :
      {Q : Outcome (Unit {0}) × Machine → Type 0}
      → Ends Q (forward_native_token machine lib (set_register 1 m.input_bytes m))
      → Ends Q (enter machine lib Entry.forward m)
  unfolding enter forward
  forward-to_native ends = step _ _ (assert_one_yocto-one m r.admitted) (
      step _ _ (unwrap-run _ _) (
        step _ _
          (read_input_borsh-run (try_from_slice (read_forward_params lib)) m r.short r.parsed)
          (step _ _ (unwrap-run _ _) (rw ((bytes_eq_iff p.token_id.as_bytes near).1 native) ends))))

  pub forward-low_balance :
      m.balance ≤ minimum_balance → Ends (Refuses m trap) (enter machine lib Entry.forward m)
  forward-low_balance low =
      forward-to_native (native-Refuses lib (set_register 1 m.input_bytes m) low)

  pub forward-no_state :
      m.balance < 2 ^ 128
      → minimum_balance < m.balance
      → m.storage state_storage_key ≡ none
      → Ends (Refuses m trap) (enter machine lib Entry.forward m)
  forward-no_state bounded enough absent =
      forward-to_native (native-no_state lib (set_register 1 m.input_bytes m) bounded enough absent)
