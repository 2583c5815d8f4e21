-- ===== src/Forwarder/Lifecycle/New.antt =====
-- `new` on an account with no state, for every input (forwarder/src/lib.rs).
use aurora_forwarder_contrac.Forwarder.Params.Valid.{read_state-IsState}
use aurora_forwarder_contrac.Base.{
  ℕ, ◌≡◌, ◌≤◌, ◌<◌, refl, ◌∙◌, ap, ◌⊎◌, inl, inr, Option, none, some, [], ◌∷◌, Bytes, Result, ok,
  err, map_err, le_or_gt,
}
use aurora_forwarder_contrac.Crates.{Crates, IsDocumented, IoError}
use aurora_forwarder_contrac.Forwarder.AccountId.{AccountId}
use aurora_forwarder_contrac.Forwarder.AccountId.Codec.{IsAccount}
use aurora_forwarder_contrac.Forwarder.Contract.{new, refuse_initialized}
use aurora_forwarder_contrac.Forwarder.Contract.Init.{save-run, save-full, stored-found}
use aurora_forwarder_contrac.Forwarder.Contract.Spec.{IsReady, IsReady-same}
use aurora_forwarder_contrac.Forwarder.Error.{ContractError, borsh_deserialize_error}
use aurora_forwarder_contrac.Forwarder.Host.Machine.{Machine, machine}
use aurora_forwarder_contrac.Forwarder.Lifecycle.{IsFrame, frame_invariant}
use aurora_forwarder_contrac.Forwarder.Invariant.Runtime.{
  load-Keeps, current_account_id-Keeps, to_vec-Keeps, promise_return-Keeps,
}
use aurora_forwarder_contrac.Forwarder.Params.{State, state_storage_key}
use aurora_forwarder_contrac.Forwarder.Params.Layout.{IsState, names_length}
use aurora_forwarder_contrac.Forwarder.Promise.{add_full_access_key}
use aurora_forwarder_contrac.Forwarder.Runtime.Handler.{promise_create_batch}
use aurora_forwarder_contrac.Forwarder.Runtime.Steps.{add_key-run}
use aurora_forwarder_contrac.Forwarder.Runtime.Io
use aurora_forwarder_contrac.Forwarder.Runtime.Upholds.{
  Upholds, Keeps, Leads, Leads-bind, Leads-of_Keeps, Leads-after, Upholds-panic_utf8,
  Upholds-sdk_unwrap, Upholds-bind, Upholds-pure, Keeps-pure, Keeps-run, Returns,
}

-- An account with no state.
abbrev pub IsEmptyHere : AccountId → Machine → Type 0
IsEmptyHere self m = (m.storage state_storage_key ≡ none) × (m.current ≡ self.as_bytes)

-- What is read comes from bytes.
read_input_borsh-Upholds :
    {P : Machine → Type 0} (frame : IsFrame P) {A : Type 0} (p : Bytes → Result IoError A)
    → Upholds P
        (λ r. (v : Bytes) × (r ≡ map_err (λ _. borsh_deserialize_error) (p v)))
        (Io.read_input_borsh machine p)
unfolding Io.read_input_borsh Io.read_input Io.to_value
read_input_borsh-Upholds frame p =
    Upholds-bind
      (Upholds-bind (Keeps-run _ (λ m h. frame.at _ _ refl refl h)) (λ _ _. Keeps-pure _))
      (λ r _.
        Upholds-bind (to_vec-Keeps (frame_invariant frame) r) (λ v _. Upholds-pure _ _ (v, refl)))

add_key-Keeps :
    {P : Machine → Type 0} (frame : IsFrame P) (id : AccountId) (k : Bytes) (n : ℕ)
    → Keeps P (
        promise_create_batch machine
          (record { target_account_id = id; actions = add_full_access_key k n ∷ [] }))
add_key-Keeps frame id k n = record {
  at = λ m h. rw (add_key-run id k n m) (frame.at _ _ refl refl h, tt);
}

refuse_initialized-Keeps :
    (lib : Crates) {P : Machine → Type 0} (existing : Option State)
    → Keeps P (refuse_initialized machine lib existing)
unfolding refuse_initialized
refuse_initialized-Keeps lib (some _) = Upholds-panic_utf8 _ _
refuse_initialized-Keeps lib none = Keeps-pure tt

-- What was unwrapped has been read.
unwrapped :
    {A : Type 0} {r : Result ContractError A} {o : Result IoError A} {a : A}
    → r ≡ map_err (λ _. borsh_deserialize_error) o
    → r ≡ ok a
    → o ≡ ok a
unwrapped {o = ok b} e h = cc
unwrapped {o = err b} e h = absurd cc

module _ {lib : Crates} (doc : IsDocumented lib) where
  module _ {self : AccountId} (valid : IsAccount self) where
    pub IsEmptyHere-IsFrame : IsFrame (IsEmptyHere self)
    IsEmptyHere-IsFrame = record {
      at = λ m m' same here h.
          (ap (λ (f : Bytes → Option Bytes). f state_storage_key) same ∙ h.0, here ∙ h.1);
    }

    pub IsReady-IsFrame : (s : State) → IsFrame (IsReady lib s self)
    IsReady-IsFrame s = record { at = λ m m' same here h. IsReady-same same here h }

    saved :
        (s : State) (m : Machine)
        → IsState s
        → IsEmptyHere self m
        → (names_length s ≤ 220) ⊎ (220 < names_length s)
        → Returns (λ _ m'. IsReady lib s self m') (Io.save machine lib s m)
    saved s m state empty (inl short) = rw (save-run doc s m state short empty.0) (record {
      stored = stored-found lib s m;
      state = state;
      fits = short;
      valid = valid;
      here = empty.1;
    })
    saved s m state empty (inr long) = rw (save-full doc s m state long) tt

    -- Whatever the input is, `new` on an account with no state leaves a contract in place if it goes
    -- through.
    pub new-Leads :
        Leads (IsEmptyHere self) (λ _ m. (s : State) × IsReady lib s self m) (new machine lib)
    unfolding new
    new-Leads = Leads-after (load-Keeps (frame_invariant IsEmptyHere-IsFrame) lib) (λ existing _.
        Leads-after (refuse_initialized-Keeps lib existing) (λ _ _.
          Leads-after (read_input_borsh-Upholds IsEmptyHere-IsFrame _) (λ input read.
            Leads-after (Upholds-sdk_unwrap input) (λ s is_state.
              Leads-bind {R = λ _ m. IsReady lib s self m} _
                (record {
                  at = λ m h.
                      saved s m (read_state-IsState doc read.0 (unwrapped read.1 is_state)) h
                        (le_or_gt (names_length s) 220);
                })
                (λ _.
                  Leads-of_Keeps
                    (Upholds-bind
                      (current_account_id-Keeps (frame_invariant (IsReady-IsFrame s)) lib)
                      (λ current _.
                        Upholds-bind (add_key-Keeps (IsReady-IsFrame s) current _ _)
                          (λ p _. promise_return-Keeps (frame_invariant (IsReady-IsFrame s)) p)))
                    (λ _ m h. (s, h)))))))
