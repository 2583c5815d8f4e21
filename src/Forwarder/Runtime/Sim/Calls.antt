-- ===== src/Forwarder/Runtime/Sim/Calls.antt =====
-- The runtime's functions over a lawful host and over the machine.
use aurora_forwarder_contrac.Base.{
  ℕ, zero, suc, ap, Option, none, some, List, [], ◌∷◌, Bytes, take, Result, ok, err,
}
use aurora_forwarder_contrac.Crates.{Crates, IoError}
use aurora_forwarder_contrac.Forwarder.Error.{ContractError}
use aurora_forwarder_contrac.Forwarder.Params.{State}
use aurora_forwarder_contrac.Forwarder.Promise.{
  PromiseCreateArgs, PromiseWithCallbackArgs, PromiseAction, PromiseBatchAction,
  add_full_access_key, delete_account,
}
use aurora_forwarder_contrac.Forwarder.Host.{Host}
use aurora_forwarder_contrac.Forwarder.Host.Machine.{Machine, machine}
use aurora_forwarder_contrac.Forwarder.Host.Lawful.{IsLawful}
use aurora_forwarder_contrac.Forwarder.Runtime.Io
use aurora_forwarder_contrac.Forwarder.Runtime.Env
use aurora_forwarder_contrac.Forwarder.Runtime.Handler
use aurora_forwarder_contrac.Forwarder.Runtime.Handler.{PromiseId}
use aurora_forwarder_contrac.Forwarder.Runtime.Sim.{
  Sim, Sim-ask, Sim-call, Sim-attempt, Sim-run, Sim-bind, sim_rules,
}

module _ {h : Host} {view : h.World → Machine} (law : IsLawful h view) where
  pub len-Sim : (r : ℕ) → Sim view (Io.len h r) (Io.len machine r)
  unfolding Io.len
  len-Sim r = Sim-ask _ _ (λ w. ap Io.register_usize (law.register_len_lem r w))

  copy_to_slice-Sim : (n r : ℕ) → Sim view (Io.copy_to_slice h n r) (Io.copy_to_slice machine n r)
  unfolding Io.copy_to_slice
  copy_to_slice-Sim n r = Sim-ask _ _ (λ w. ap (take n) (law.read_register_lem r w))

  pub to_vec-Sim : (r : ℕ) → Sim view (Io.to_vec h r) (Io.to_vec machine r)
  unfolding Io.to_vec
  to_vec-Sim r = search (sim_rules, len-Sim, copy_to_slice-Sim)

  to_value-Sim :
      {A : Type 0} (p : Bytes → Result IoError A) (r : ℕ)
      → Sim view (Io.to_value h p r) (Io.to_value machine p r)
  unfolding Io.to_value
  to_value-Sim p r = search (sim_rules, to_vec-Sim)

  pub read_input-Sim : Sim view (Io.read_input h) (Io.read_input machine)
  unfolding Io.read_input
  read_input-Sim = Sim-bind (Sim-run _ _ (law.input_lem 1)) (λ _. search sim_rules)

  pub read_input_borsh-Sim :
      {A : Type 0} (p : Bytes → Result IoError A)
      → Sim view (Io.read_input_borsh h p) (Io.read_input_borsh machine p)
  unfolding Io.read_input_borsh
  read_input_borsh-Sim p = search (sim_rules, read_input-Sim, to_value-Sim)

  pub read_storage-Sim : (k : Bytes) → Sim view (Io.read_storage h k) (Io.read_storage machine k)
  unfolding Io.read_storage
  read_storage-Sim k = Sim-bind (Sim-call _ _ (law.storage_read_lem k 0)) (λ _. search sim_rules)

  pub write_storage-Sim :
      (k v : Bytes) → Sim view (Io.write_storage h k v) (Io.write_storage machine k v)
  unfolding Io.write_storage
  write_storage-Sim k v =
      Sim-bind (Sim-call _ _ (law.storage_write_lem k v 2)) (λ _. search sim_rules)

  store-Sim :
      (k : Bytes) (r : Result ContractError Bytes)
      → Sim view (Io.store h k r) (Io.store machine k r)
  unfolding Io.store
  store-Sim k (ok v) = write_storage-Sim k v
  store-Sim k (err e) = search sim_rules

  write_borsh-Sim :
      (k : Bytes) (v : Result IoError Bytes)
      → Sim view (Io.write_borsh h k v) (Io.write_borsh machine k v)
  unfolding Io.write_borsh
  write_borsh-Sim k v = search (sim_rules, store-Sim)

  pub save-Sim : (lib : Crates) (s : State) → Sim view (Io.save h lib s) (Io.save machine lib s)
  unfolding Io.save
  save-Sim lib s = search (sim_rules, write_borsh-Sim)

  parse-Sim : (lib : Crates) (o : Option ℕ) → Sim view (Io.parse h lib o) (Io.parse machine lib o)
  unfolding Io.parse
  parse-Sim lib none = search sim_rules
  parse-Sim lib (some r) = search (sim_rules, to_vec-Sim)

  pub load-Sim : (lib : Crates) → Sim view (Io.load h lib) (Io.load machine lib)
  unfolding Io.load
  load-Sim lib = search (sim_rules, read_storage-Sim, parse-Sim)

  read_account_id-Sim :
      (lib : Crates) → Sim view (Env.read_account_id h lib) (Env.read_account_id machine lib)
  unfolding Env.read_account_id
  read_account_id-Sim lib = search (sim_rules, to_vec-Sim)

  pub current_account_id-Sim :
      (lib : Crates) → Sim view (Env.current_account_id h lib) (Env.current_account_id machine lib)
  unfolding Env.current_account_id
  current_account_id-Sim lib =
      Sim-bind (Sim-run _ _ (law.current_account_id_lem 4)) (λ _. read_account_id-Sim lib)

  pub predecessor_account_id-Sim :
      (lib : Crates)
      → Sim view (Env.predecessor_account_id h lib) (Env.predecessor_account_id machine lib)
  unfolding Env.predecessor_account_id
  predecessor_account_id-Sim lib =
      Sim-bind (Sim-run _ _ (law.predecessor_account_id_lem 4)) (λ _. read_account_id-Sim lib)

  pub assert_private_call-Sim :
      (lib : Crates)
      → Sim view (Env.assert_private_call h lib) (Env.assert_private_call machine lib)
  unfolding Env.assert_private_call
  assert_private_call-Sim lib =
      search (sim_rules, current_account_id-Sim, predecessor_account_id-Sim)

  attached_deposit-Sim : Sim view (Env.attached_deposit h) (Env.attached_deposit machine)
  unfolding Env.attached_deposit
  attached_deposit-Sim = Sim-ask _ _ (λ w. ap Env.from_le_bytes (law.attached_deposit_lem w))

  pub account_balance-Sim : Sim view (Env.account_balance h) (Env.account_balance machine)
  unfolding Env.account_balance
  account_balance-Sim = Sim-ask _ _ (λ w. ap Env.from_le_bytes (law.account_balance_lem w))

  pub assert_one_yocto-Sim : Sim view (Env.assert_one_yocto h) (Env.assert_one_yocto machine)
  unfolding Env.assert_one_yocto
  assert_one_yocto-Sim = search (sim_rules, attached_deposit-Sim)

  outcome_of-Sim : (n : ℕ) → Sim view (Handler.outcome_of h n) (Handler.outcome_of machine n)
  unfolding Handler.outcome_of
  outcome_of-Sim zero = search sim_rules
  outcome_of-Sim (suc zero) = search (sim_rules, to_vec-Sim)
  outcome_of-Sim (suc (suc zero)) = search sim_rules
  outcome_of-Sim (suc (suc (suc n))) = search sim_rules

  pub promise_result-Sim :
      (i : ℕ) → Sim view (Handler.promise_result h i) (Handler.promise_result machine i)
  unfolding Handler.promise_result
  promise_result-Sim i = Sim-bind (Sim-attempt _ _ (law.promise_result_lem i 5)) outcome_of-Sim

  pub promise_create_call-Sim :
      (a : PromiseCreateArgs)
      → Sim view (Handler.promise_create_call h a) (Handler.promise_create_call machine a)
  unfolding Handler.promise_create_call
  promise_create_call-Sim a =
      Sim-bind (Sim-call _ _ (law.promise_create_lem _ _ _ _ _)) (λ _. search sim_rules)

  create_all-Sim :
      (room : ℕ) (args : List PromiseCreateArgs)
      → Sim view (Handler.create_all h room args) (Handler.create_all machine room args)
  unfolding Handler.create_all
  create_all-Sim zero [] = search sim_rules
  create_all-Sim (suc room) [] = search sim_rules
  create_all-Sim zero (a ∷ rest) = search (sim_rules, promise_create_call-Sim)
  create_all-Sim (suc room) (a ∷ rest) =
      Sim-bind (promise_create_call-Sim a)
        (λ id. Sim-bind (create_all-Sim room rest) (λ ids. search sim_rules))

  pub promise_create_and_combine-Sim :
      (args : List PromiseCreateArgs)
      → Sim view
          (Handler.promise_create_and_combine h args)
          (Handler.promise_create_and_combine machine args)
  unfolding Handler.promise_create_and_combine
  promise_create_and_combine-Sim args =
      Sim-bind (create_all-Sim 2 args)
        (λ ids. Sim-bind (Sim-call _ _ (law.promise_and_lem ids)) (λ _. search sim_rules))

  pub promise_attach_callback-Sim :
      (p : PromiseId) (a : PromiseCreateArgs)
      → Sim view
          (Handler.promise_attach_callback h p a)
          (Handler.promise_attach_callback machine p a)
  unfolding Handler.promise_attach_callback
  promise_attach_callback-Sim p a =
      Sim-bind (Sim-call _ _ (law.promise_then_lem _ _ _ _ _ _)) (λ _. search sim_rules)

  append_action-Sim :
      (p : ℕ) (a : PromiseAction)
      → Sim view (Handler.append_action h p a) (Handler.append_action machine p a)
  unfolding Handler.append_action
  append_action-Sim p (add_full_access_key k n) =
      Sim-run _ _ (law.add_key_with_full_access_lem p k n)
  append_action-Sim p (delete_account b) = Sim-run _ _ (law.delete_account_lem p b.as_bytes)

  append_batch_actions-Sim :
      (p : ℕ) (actions : List PromiseAction)
      → Sim view
          (Handler.append_batch_actions h p actions)
          (Handler.append_batch_actions machine p actions)
  unfolding Handler.append_batch_actions
  append_batch_actions-Sim p [] = search sim_rules
  append_batch_actions-Sim p (a ∷ rest) =
      Sim-bind (append_action-Sim p a) (λ _. append_batch_actions-Sim p rest)

  pub promise_create_batch-Sim :
      (b : PromiseBatchAction)
      → Sim view (Handler.promise_create_batch h b) (Handler.promise_create_batch machine b)
  unfolding Handler.promise_create_batch
  promise_create_batch-Sim b =
      Sim-bind (Sim-call _ _ (law.promise_batch_create_lem _))
        (λ id. search (sim_rules, append_batch_actions-Sim))

  pub promise_return-Sim :
      (p : PromiseId) → Sim view (Handler.promise_return h p) (Handler.promise_return machine p)
  unfolding Handler.promise_return
  promise_return-Sim p = Sim-run _ _ (law.promise_return_lem p.raw)

  pub promise_create_with_callback-Sim :
      (a : PromiseWithCallbackArgs)
      → Sim view
          (Handler.promise_create_with_callback h a)
          (Handler.promise_create_with_callback machine a)
  unfolding Handler.promise_create_with_callback
  promise_create_with_callback-Sim a =
      search (sim_rules, promise_create_call-Sim, promise_attach_callback-Sim)
