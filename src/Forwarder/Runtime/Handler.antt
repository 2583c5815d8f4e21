-- ===== src/Forwarder/Runtime/Handler.antt =====
-- forwarder/src/runtime/handler.rs, and `append_batch_actions` of mod.rs: promises.
use aurora_forwarder_contrac.Base.{ℕ, zero, suc, Option, none, some, List, [], ◌∷◌, err, trap}
use aurora_forwarder_contrac.Forwarder.Promise.{
  PromiseCreateArgs, PromiseWithCallbackArgs, PromiseAction, add_full_access_key, delete_account,
  PromiseBatchAction, PromiseResult, successful, failed, not_ready,
}
use aurora_forwarder_contrac.Forwarder.Host.{Host}
use aurora_forwarder_contrac.Forwarder.Runtime.Exec.{
  Exec, lift, pure, call, attempt, run, ◌>>=◌, ◌>>◌,
}
use aurora_forwarder_contrac.Forwarder.Runtime.Io.{to_vec, promise_register_id}

pub record PromiseId : Type 0 where
  pub raw : ℕ

module _ (h : Host) where
  open h use {World}

  -- The match on the host's answer.
  unfoldable pub outcome_of : ℕ → Exec World (Option PromiseResult)
  outcome_of zero = pure (some not_ready)
  outcome_of (suc zero) = do bytes ← to_vec h promise_register_id; pure (some (successful bytes))
  outcome_of (suc (suc zero)) = pure (some failed)
  outcome_of (suc (suc (suc n))) = pure none

  unfoldable pub promise_result : ℕ → Exec World (Option PromiseResult)
  promise_result index = do
    answer ← attempt (h.promise_result index promise_register_id)
    outcome_of answer

  unfoldable pub promise_create_call : PromiseCreateArgs → Exec World PromiseId
  promise_create_call a = do
    id ← call (
        h.promise_create a.target_account_id.as_bytes a.method a.args a.attached_balance
          a.attached_gas)
    pure (record { raw = id })

  -- The calls in turn, into an array with room for so many ids.
  unfoldable pub create_all : ℕ → List PromiseCreateArgs → Exec World (List ℕ)
  create_all room [] = pure []
  create_all zero (a ∷ as') = do promise_create_call a; lift (err trap)
  create_all (suc room) (a ∷ as') = do
    id ← promise_create_call a
    ids ← create_all room as'
    pure (id.raw ∷ ids)

  unfoldable pub promise_create_and_combine : List PromiseCreateArgs → Exec World PromiseId
  promise_create_and_combine args = do
    ids ← create_all 2 args
    id ← call (h.promise_and ids)
    pure (record { raw = id })

  unfoldable pub promise_attach_callback : PromiseId → PromiseCreateArgs → Exec World PromiseId
  promise_attach_callback base a = do
    id ← call (
        h.promise_then base.raw a.target_account_id.as_bytes a.method a.args a.attached_balance
          a.attached_gas)
    pure (record { raw = id })

  unfoldable pub append_action : ℕ → PromiseAction → Exec World (Unit {0})
  append_action id (add_full_access_key public_key nonce) =
      run (h.add_key_with_full_access id public_key nonce)
  append_action id (delete_account beneficiary_id) =
      run (h.delete_account id beneficiary_id.as_bytes)

  unfoldable pub append_batch_actions : ℕ → List PromiseAction → Exec World (Unit {0})
  append_batch_actions id [] = pure tt
  append_batch_actions id (a ∷ as') = do append_action id a; append_batch_actions id as'

  unfoldable pub promise_create_batch : PromiseBatchAction → Exec World PromiseId
  promise_create_batch b = do
    id ← call (h.promise_batch_create b.target_account_id.as_bytes)
    append_batch_actions id b.actions
    pure (record { raw = id })

  unfoldable pub promise_return : PromiseId → Exec World (Unit {0})
  promise_return promise = run (h.promise_return promise.raw)

  unfoldable pub promise_create_with_callback : PromiseWithCallbackArgs → Exec World PromiseId
  promise_create_with_callback a = do
    base ← promise_create_call a.base
    promise_attach_callback base a.callback
