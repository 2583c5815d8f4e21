-- ===== src/Forwarder/Invariant/Runtime.antt =====
-- The runtime's functions (forwarder/src/runtime) keep an invariant of the host.
use aurora_forwarder_contrac.Base.{ℕ, zero, suc, Option, none, some, List, [], ◌∷◌, Bytes, Result}
use aurora_forwarder_contrac.Crates.{Crates, IoError}
use aurora_forwarder_contrac.Forwarder.AccountId.{AccountId}
use aurora_forwarder_contrac.Forwarder.Host.Machine.{
  Machine, machine, Promise, Action, joined, batch, delete, result_code, found,
}
use aurora_forwarder_contrac.Forwarder.Promise.{
  PromiseCreateArgs, PromiseWithCallbackArgs, PromiseResult, not_ready, successful, failed,
  delete_account,
}
use aurora_forwarder_contrac.Forwarder.Runtime.Env
use aurora_forwarder_contrac.Forwarder.Runtime.Handler
use aurora_forwarder_contrac.Forwarder.Runtime.Handler.{PromiseId}
use aurora_forwarder_contrac.Forwarder.Runtime.Io
use aurora_forwarder_contrac.Forwarder.Runtime.Steps.{call_of, callback_of, delete_account-run}
use aurora_forwarder_contrac.Forwarder.Runtime.Upholds.{
  Keeps, Keeps-run, Keeps-ask, Keeps-call, Keeps-attempt, Upholds-bind, Keeps-pure, Upholds-lift,
}
use aurora_forwarder_contrac.Forwarder.Invariant.{IsInvariant}

module _ {P : Machine → Type 0} {Allowed : Promise → Type 0} {AllowedAction : Action → Type 0}
    (inv : IsInvariant P Allowed AllowedAction) where
  pub to_vec-Keeps : (r : ℕ) → Keeps P (Io.to_vec machine r)
  unfolding Io.to_vec Io.len Io.copy_to_slice
  to_vec-Keeps r =
      Upholds-bind (Keeps-ask _) (λ n _. Upholds-bind (Upholds-lift _) (λ _ _. Keeps-ask _))

  pub read_input_borsh-Keeps :
      {A : Type 0} (p : Bytes → Result IoError A) → Keeps P (Io.read_input_borsh machine p)
  unfolding Io.read_input_borsh Io.read_input Io.to_value
  read_input_borsh-Keeps p =
      Upholds-bind
        (Upholds-bind (Keeps-run _ (λ m h. inv.register 1 m.input_bytes h)) (λ _ _. Keeps-pure _))
        (λ r _. Upholds-bind (to_vec-Keeps r) (λ v _. Keeps-pure _))

  pub predecessor_account_id-Keeps :
      (lib : Crates) → Keeps P (Env.predecessor_account_id machine lib)
  unfolding Env.predecessor_account_id Env.read_account_id
  predecessor_account_id-Keeps lib =
      Upholds-bind (Keeps-run _ (λ m h. inv.register 4 m.predecessor h)) (λ _ _.
        Upholds-bind (to_vec-Keeps 4) (λ v _. Upholds-bind (Upholds-lift _) (λ _ _. Keeps-pure _)))

  result_code-Keeps :
      (o : Option PromiseResult) (r : ℕ) {m : Machine} → P m → P (result_code o r m).1
  result_code-Keeps none r h = h
  result_code-Keeps (some not_ready) r h = h
  result_code-Keeps (some failed) r h = h
  result_code-Keeps (some (successful v)) r h = inv.register r v h

  outcome_of-Keeps : (n : ℕ) → Keeps P (Handler.outcome_of machine n)
  unfolding Handler.outcome_of
  outcome_of-Keeps zero = Keeps-pure _
  outcome_of-Keeps (suc zero) = Upholds-bind (to_vec-Keeps 5) (λ v _. Keeps-pure _)
  outcome_of-Keeps (suc (suc zero)) = Keeps-pure _
  outcome_of-Keeps (suc (suc (suc n))) = Keeps-pure _

  pub promise_result-Keeps : (i : ℕ) → Keeps P (Handler.promise_result machine i)
  unfolding Handler.promise_result
  promise_result-Keeps i =
      Upholds-bind (Keeps-attempt _ (λ m h. result_code-Keeps _ 5 h)) (λ n _. outcome_of-Keeps n)

  pub promise_create_call-Keeps :
      (a : PromiseCreateArgs)
      → Allowed (call_of a)
      → Keeps P (Handler.promise_create_call machine a)
  unfolding Handler.promise_create_call
  promise_create_call-Keeps a allowed =
      Upholds-bind (Keeps-call _ (λ m h. inv.scheduled (call_of a) allowed h)) (λ n _. Keeps-pure _)

  pub promise_attach_callback-Keeps :
      (p : PromiseId) (a : PromiseCreateArgs)
      → Allowed (callback_of p.raw a)
      → Keeps P (Handler.promise_attach_callback machine p a)
  unfolding Handler.promise_attach_callback
  promise_attach_callback-Keeps p a allowed =
      Upholds-bind (Keeps-call _ (λ m h. inv.scheduled (callback_of p.raw a) allowed h))
        (λ n _. Keeps-pure _)

  pub promise_return-Keeps : (p : PromiseId) → Keeps P (Handler.promise_return machine p)
  unfolding Handler.promise_return
  promise_return-Keeps p = Keeps-run _ (λ m h. inv.returned p.raw h)

  pub promise_create_and_combine-Keeps :
      (a b : PromiseCreateArgs)
      → Allowed (call_of a)
      → Allowed (call_of b)
      → ((ids : List ℕ) → Allowed (joined ids))
      → Keeps P (Handler.promise_create_and_combine machine (a ∷ b ∷ []))
  unfolding Handler.promise_create_and_combine Handler.create_all
  promise_create_and_combine-Keeps a b allowed_a allowed_b allowed_join =
      Upholds-bind
        (Upholds-bind (promise_create_call-Keeps a allowed_a) (λ x _.
          Upholds-bind
            (Upholds-bind (promise_create_call-Keeps b allowed_b)
              (λ y _. Upholds-bind (Keeps-pure _) (λ _ _. Keeps-pure _)))
            (λ _ _. Keeps-pure _)))
        (λ ids _.
          Upholds-bind (Keeps-call _ (λ m h. inv.scheduled (joined ids) (allowed_join ids) h))
            (λ n _. Keeps-pure _))

  pub promise_create_with_callback-Keeps :
      (a : PromiseWithCallbackArgs)
      → Allowed (call_of a.base)
      → ((n : ℕ) → Allowed (callback_of n a.callback))
      → Keeps P (Handler.promise_create_with_callback machine a)
  unfolding Handler.promise_create_with_callback
  promise_create_with_callback-Keeps a allowed_base allowed_callback =
      Upholds-bind (promise_create_call-Keeps a.base allowed_base)
        (λ p _. promise_attach_callback-Keeps p a.callback (allowed_callback p.raw))

  pub current_account_id-Keeps : (lib : Crates) → Keeps P (Env.current_account_id machine lib)
  unfolding Env.current_account_id Env.read_account_id
  current_account_id-Keeps lib =
      Upholds-bind (Keeps-run _ (λ m h. inv.register 4 m.current h)) (λ _ _.
        Upholds-bind (to_vec-Keeps 4) (λ v _. Upholds-bind (Upholds-lift _) (λ _ _. Keeps-pure _)))

  pub assert_private_call-Keeps : (lib : Crates) → Keeps P (Env.assert_private_call machine lib)
  unfolding Env.assert_private_call
  assert_private_call-Keeps lib =
      Upholds-bind (predecessor_account_id-Keeps lib)
        (λ _ _. Upholds-bind (current_account_id-Keeps lib) (λ _ _. Keeps-pure _))

  -- A batch on an account that deletes it.
  pub delete_account-Keeps :
      (id beneficiary : AccountId)
      → Allowed (batch id.as_bytes)
      → ((n : ℕ) → AllowedAction (delete n beneficiary.as_bytes))
      → Keeps P (
          Handler.promise_create_batch machine
            (record { target_account_id = id; actions = delete_account beneficiary ∷ [] }))
  delete_account-Keeps id beneficiary allowed allowed_delete = record {
    at = λ m h.
        rw (delete_account-run id beneficiary m)
          (inv.acted _ (allowed_delete _) (inv.scheduled (batch id.as_bytes) allowed h), tt);
  }

  to_vec_storage : (o : Option Bytes) (r : ℕ) {m : Machine} → P m → P (found o r m).1
  to_vec_storage none r h = h
  to_vec_storage (some v) r h = inv.register r v h

  parse-Keeps : (lib : Crates) (o : Option ℕ) → Keeps P (Io.parse machine lib o)
  unfolding Io.parse
  parse-Keeps lib none = Keeps-pure _
  parse-Keeps lib (some r) = Upholds-bind (to_vec-Keeps r) (λ _ _. Keeps-pure _)

  pub load-Keeps : (lib : Crates) → Keeps P (Io.load machine lib)
  unfolding Io.load Io.read_storage
  load-Keeps lib =
      Upholds-bind (Upholds-bind (Keeps-call _ (λ m h. to_vec_storage _ 0 h)) (λ n _. Keeps-pure _))
        (λ r _. parse-Keeps lib r)

  pub account_balance-Keeps : Keeps (P) (Env.account_balance machine)
  unfolding Env.account_balance
  account_balance-Keeps = Keeps-ask _

  pub assert_one_yocto-Keeps : Keeps (P) (Env.assert_one_yocto machine)
  unfolding Env.assert_one_yocto Env.attached_deposit
  assert_one_yocto-Keeps = Upholds-bind (Keeps-ask _) (λ _ _. Keeps-pure _)
