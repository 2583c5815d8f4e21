-- ===== src/Forwarder/Contract/Errors/Callbacks.antt =====
-- The two callbacks (forwarder/src/lib.rs) begin alike: the guard, the input, the state and the
-- promise result.
use aurora_forwarder_contrac.Base.{
  ◌^◌, ◌≤◌, ◌<◌, ◌≡◌, refl, none, Bytes, codes, length, Result, ok, err, utf8, trap,
}
use aurora_forwarder_contrac.Base.Results.{Outcome}
use aurora_forwarder_contrac.Crates.{Crates, IsDocumented, IoError}
use aurora_forwarder_contrac.Forwarder.AccountId.{AccountId}
use aurora_forwarder_contrac.Forwarder.Contract.{
  calculate_fees_callback, finish_forward_callback, enter,
}
use aurora_forwarder_contrac.Forwarder.Contract.Errors.{Input, parse_input, IsSelfCall, IsRead}
use aurora_forwarder_contrac.Forwarder.Contract.Exports.{Entry}
use aurora_forwarder_contrac.Forwarder.Contract.Private.{IsCallback}
use aurora_forwarder_contrac.Forwarder.Contract.Spec.{
  IsReady, load-ready, Refuses, set_register-IsReady,
}
use aurora_forwarder_contrac.Forwarder.Host.Machine.{Machine, machine, set_register}
use aurora_forwarder_contrac.Forwarder.Params.{State, state_storage_key}
use aurora_forwarder_contrac.Forwarder.Params.Layout.{state_bytes}
use aurora_forwarder_contrac.Forwarder.Runtime.Env.{assert_private_call}
use aurora_forwarder_contrac.Forwarder.Runtime.Exec.{Exec, sdk_unwrap, sdk_expect, ◌>>=◌, ◌>>◌}
use aurora_forwarder_contrac.Forwarder.Runtime.Io.{load, read_input_borsh}
use aurora_forwarder_contrac.Forwarder.Runtime.Run.{
  assert_private_call-same, names_read, read_input_borsh-run, read_input_borsh-unread,
  read_input_borsh-full, load-run_none,
}
use aurora_forwarder_contrac.Forwarder.Runtime.Steps.{
  Ends, step, stop, unwrap-run, unwrap_err-run, expect-run, expect_none-run,
}

-- The host after the reading of the input, and after the reading of the state.
abbrev pub input_read : Machine → Machine
input_read m = set_register 1 m.input_bytes (names_read m)

abbrev pub state_read : Crates → State → Machine → Machine
state_read lib s m = set_register 0 (state_bytes lib s) (input_read m)

-- A callback that parses its input by `parse` and goes on with `rest`.
abbrev pub callback :
    {A : Type 0}
    → Crates
    → (Bytes → Result IoError A)
    → (A → State → Exec Machine (Unit {0}))
    → Exec Machine (Unit {0})
callback lib parse rest = do
  private ← assert_private_call machine lib
  sdk_unwrap private
  input ← read_input_borsh machine parse
  params ← sdk_unwrap input
  stored ← load machine lib
  state ← sdk_expect (codes "No state") stored
  rest params state

module _ {lib : Crates} (doc : IsDocumented lib) {self : AccountId} {A : Type 0}
    (parse : Bytes → Result IoError A) (rest : A → State → Exec Machine (Unit {0})) (m : Machine)
    (own : IsSelfCall self m) where
  callback-long :
      256 < length m.input_bytes
      → length m.input_bytes < 2 ^ 32
      → Ends (Refuses m trap) (callback lib parse rest m)
  callback-long long addressable =
      step _ _ (assert_private_call-same doc self m own.valid own.here own.caller) (
        step _ _ (unwrap-run _ _) (
          stop _ _ (read_input_borsh-full parse (names_read m) long addressable)
            (refl, refl, refl, refl, refl)))

  callback-unread :
      {x : IoError}
      → length m.input_bytes ≤ 256
      → parse m.input_bytes ≡ err x
      → Ends (Refuses m (utf8 (codes "ERR_BORCH_DESERIALIZE"))) (callback lib parse rest m)
  callback-unread short unread =
      step _ _ (assert_private_call-same doc self m own.valid own.here own.caller) (
        step _ _ (unwrap-run _ _) (
          step _ _ (read_input_borsh-unread parse (names_read m) short unread)
            (stop _ _ (unwrap_err-run _ _) (refl, refl, refl, refl, refl))))

  module _ {p : A} (short : length m.input_bytes ≤ 256) (parsed : parse m.input_bytes ≡ ok p) where
    callback-empty :
        m.storage state_storage_key ≡ none
        → Ends (Refuses m (utf8 (codes "No state"))) (callback lib parse rest m)
    callback-empty absent =
        step _ _ (assert_private_call-same doc self m own.valid own.here own.caller) (
          step _ _ (unwrap-run _ _) (
            step _ _ (read_input_borsh-run parse (names_read m) short parsed) (
              step _ _ (unwrap-run _ _) (
                step _ _ (load-run_none lib (input_read m) absent)
                  (stop _ _ (expect_none-run _ _) (refl, refl, refl, refl, refl))))))

    pub callback-goes_on :
        {s : State} {Q : Outcome (Unit {0}) × Machine → Type 0}
        → IsReady lib s self m
        → Ends Q (rest p s (state_read lib s m))
        → Ends Q (callback lib parse rest m)
    callback-goes_on ready ends =
        step _ _ (assert_private_call-same doc self m own.valid own.here own.caller) (
          step _ _ (unwrap-run _ _) (
            step _ _ (read_input_borsh-run parse (names_read m) short parsed) (
              step _ _ (unwrap-run _ _) (
                step _ _
                  (load-ready doc _ (
                    set_register-IsReady 1 m.input_bytes (
                      set_register-IsReady 4 m.current
                        (set_register-IsReady 4 m.predecessor ready))))
                  (step _ _ (expect-run _ _ _) ends)))))

module _ {lib : Crates} (doc : IsDocumented lib) {self : AccountId} (m : Machine) where
  pub callback-long_input :
      (e : Entry)
      → IsCallback e
      → IsSelfCall self m
      → 256 < length m.input_bytes
      → length m.input_bytes < 2 ^ 32
      → Ends (Refuses m trap) (enter machine lib e m)
  unfolding enter calculate_fees_callback finish_forward_callback
  callback-long_input Entry.calculate_fees_callback c own long addressable =
      callback-long doc _ _ m own long addressable
  callback-long_input Entry.finish_forward_callback c own long addressable =
      callback-long doc _ _ m own long addressable
  callback-long_input Entry.new c _ _ _ = absurd c
  callback-long_input Entry.forward c _ _ _ = absurd c
  callback-long_input Entry.destroy c _ _ _ = absurd c

  pub callback-bad_input :
      (e : Entry) {x : IoError}
      → IsCallback e
      → IsSelfCall self m
      → length m.input_bytes ≤ 256
      → parse_input lib e m.input_bytes ≡ err x
      → Ends (Refuses m (utf8 (codes "ERR_BORCH_DESERIALIZE"))) (enter machine lib e m)
  unfolding enter calculate_fees_callback finish_forward_callback
  callback-bad_input Entry.calculate_fees_callback c own short unread =
      callback-unread doc _ _ m own short unread
  callback-bad_input Entry.finish_forward_callback c own short unread =
      callback-unread doc _ _ m own short unread
  callback-bad_input Entry.new c _ _ _ = absurd c
  callback-bad_input Entry.forward c _ _ _ = absurd c
  callback-bad_input Entry.destroy c _ _ _ = absurd c

  pub callback-no_state :
      (e : Entry) (p : Input e)
      → IsCallback e
      → IsRead lib self m e p
      → m.storage state_storage_key ≡ none
      → Ends (Refuses m (utf8 (codes "No state"))) (enter machine lib e m)
  unfolding enter calculate_fees_callback finish_forward_callback
  callback-no_state Entry.calculate_fees_callback p c r absent =
      callback-empty doc _ _ m r.admitted r.short r.parsed absent
  callback-no_state Entry.finish_forward_callback p c r absent =
      callback-empty doc _ _ m r.admitted r.short r.parsed absent
  callback-no_state Entry.new _ c _ _ = absurd c
  callback-no_state Entry.forward _ c _ _ = absurd c
  callback-no_state Entry.destroy _ c _ _ = absurd c
