-- ===== src/Protocol/Deploy.antt =====
-- From the factory's `create` to a forwarder in place (factory/src/lib.rs, forwarder/src/lib.rs).
use aurora_forwarder_contrac.Base.{
  ℕ, ◌≤◌, ◌≡◌, ◌∙◌, sym, ap, refl, none, some, List, [], ◌∷◌, Bytes, codes, Result, ok,
}
use aurora_forwarder_contrac.Crates.{Crates, IsDocumented}
use aurora_forwarder_contrac.Factory.{
  Sdk, AuroraForwarderFactory, DeployParameters, FactoryPromise, FactoryPanic, deploy,
  then_storage_deposit, create_one, create_forwarder_id, init_balance, forwarder_new_gas,
  storage_balance_bound, write_parameters,
}
use aurora_forwarder_contrac.Factory.Parameters.{write_parameters-layout}
use aurora_forwarder_contrac.Forwarder.AccountId.{AccountId}
use aurora_forwarder_contrac.Forwarder.AccountId.Codec.{IsAccount}
use aurora_forwarder_contrac.Forwarder.Contract.{enter}
use aurora_forwarder_contrac.Forwarder.Contract.Exports.{Entry}
use aurora_forwarder_contrac.Forwarder.Contract.Init.{new-stores, stored-found}
use aurora_forwarder_contrac.Forwarder.Contract.Spec.{IsReady}
use aurora_forwarder_contrac.Forwarder.Flow.Steps.{after, settle-ok, name-new}
use aurora_forwarder_contrac.Forwarder.Host.Lawful.{machine-IsLawful}
use aurora_forwarder_contrac.Forwarder.Host.Machine.{Machine, machine}
use aurora_forwarder_contrac.Forwarder.Params.{State, state_storage_key}
use aurora_forwarder_contrac.Forwarder.Params.Layout.{IsState, names_length, state_bytes}
use aurora_forwarder_contrac.Forwarder.Chain.{take_deletion, IsQuiet}
use aurora_forwarder_contrac.Forwarder.Chain.Quiet.{take_deletion-add_key}
use aurora_forwarder_contrac.Forwarder.Flow.{name}
use aurora_forwarder_contrac.Forwarder.Safety.{Call, receive}
use aurora_forwarder_contrac.Utils.{trim_start_0x}

-- The forwarder's state that the factory asks for.
pub record IsAskedFor (sdk : Sdk) (current : Bytes) (self : AuroraForwarderFactory)
    (p : DeployParameters) (s : State) : Type 0 where
  pub address : sdk.decode_address (trim_start_0x p.target_address) ≡ some s.target_address.raw
  pub network : p.target_network ≡ s.target_network.as_bytes
  pub wnear : p.wnear_contract_id ≡ s.wnear_contract_id.as_bytes
  pub fees : self.fees_contract_id ≡ s.fees_contract_id.as_bytes
  pub owner : current ≡ s.owner_id.as_bytes

deploy_fields :
    {id id' a a' f f' x x' : Bytes} {b b' d d' g g' : ℕ} {ps ps' : List FactoryPromise}
    → ◌≡◌ {A = Result FactoryPanic (Bytes × List FactoryPromise)}
        (ok (id, deploy a b f x d g ∷ ps))
        (ok (id', deploy a' b' f' x' d' g' ∷ ps'))
    → (id ≡ id') × (a ≡ a') × (f ≡ f') × (x ≡ x')
deploy_fields h = (cc, cc, cc, cc)

module _ {lib : Crates} (doc : IsDocumented lib) where
  -- No deletion is scheduled by the call.
  pub new-IsQuiet :
      (m : Machine) (c : Call) (s : State) (forwarder : AccountId)
      → c.entry ≡ Entry.new
      → IsAccount forwarder
      → m.current ≡ forwarder.as_bytes
      → IsState s
      → names_length s ≤ 220
      → m.storage state_storage_key ≡ none
      → c.input_bytes ≡ state_bytes lib s
      → IsQuiet m
      → IsQuiet (after lib m c)
  new-IsQuiet m c s forwarder is_new valid here state short absent given quiet =
      let (done, _, _, actions, _, _) =
        rw (← is_new) at
          (new-stores machine-IsLawful doc (receive c m) s valid here state short absent given) in
      let kept = settle-ok m (enter machine lib c.entry (receive c m)) done in
      ap (λ (m' : Machine). take_deletion m'.actions) kept
      ∙ ap take_deletion actions
      ∙ take_deletion-add_key m.actions _ _ _ quiet

  pub new-IsReady :
      (m : Machine) (c : Call) (s : State) (forwarder : AccountId)
      → c.entry ≡ Entry.new
      → IsAccount forwarder
      → m.current ≡ forwarder.as_bytes
      → IsState s
      → names_length s ≤ 220
      → m.storage state_storage_key ≡ none
      → c.input_bytes ≡ state_bytes lib s
      → IsReady lib s forwarder (after lib m c)
  new-IsReady m c s forwarder is_new valid here state short absent given =
      let o = enter machine lib c.entry (receive c m) in
      let (done, stored, _, _, _, current) =
        rw (← is_new) at
          (new-stores machine-IsLawful doc (receive c m) s valid here state short absent given) in
      let kept = settle-ok m o done in
      record {
        stored =
            ap (λ (m' : Machine). m'.storage state_storage_key) kept
            ∙ (λ i. stored i state_storage_key)
            ∙ stored-found lib s m;
        state = state;
        fits = short;
        valid = valid;
        here = ap (λ (m' : Machine). m'.current) kept ∙ current ∙ here;
      }

  module _ (sdk : Sdk) (current : Bytes) (self : AuroraForwarderFactory) (p : DeployParameters)
      {s : State} (asked : IsAskedFor sdk current self p s) (valid : IsState s) where
    written :
        write_parameters lib (record {
          target_address = s.target_address.raw;
          target_network = p.target_network;
          wnear_contract_id = p.wnear_contract_id;
          fees_contract_id = self.fees_contract_id;
          owner_id = current;
        })
        ≡ ok (state_bytes lib s)
    written =
        rw (asked.network, asked.wnear, asked.fees, asked.owner)
          (write_parameters-layout doc s valid)

    -- Asked for a valid state under parsable names, `create` schedules for a forwarder the deployment
    -- of its account with a call of `new` on the bytes of that state, and behind it the account's
    -- registration with wNEAR.
    pub create_one-deploys :
        (id : Bytes)
        → create_forwarder_id sdk current p.target_address p.target_network self.fees_contract_id
          ≡ ok id
        → create_one lib sdk current self p
          ≡ ok (
            id,
            deploy id init_balance (codes "new") (state_bytes lib s) 0 forwarder_new_gas
                ∷ then_storage_deposit p.wnear_contract_id id storage_balance_bound
                ∷ [],
          )
    unfolding create_one
    create_one-deploys id named = rw (named, asked.address, written) refl

    -- A forwarder that the factory creates comes into place. The factory was asked for a state with
    -- valid names, of at most 220 bytes together, and an address of twenty bytes, and the first
    -- promise of `create` for it is a deployment with a call. When the host makes this call on the
    -- account that the promise names, which is a valid one and has no state yet, the account is the
    -- one that `create` returned, and the forwarder on it is in place with the state that was asked
    -- for.
    pub deploy-IsReady :
        {promises : List FactoryPromise} {id account method args : Bytes} {balance deposit gas : ℕ}
        (forwarder : AccountId) (m : Machine) (c : Call)
        → create_forwarder_id sdk current p.target_address p.target_network self.fees_contract_id
          ≡ ok forwarder.as_bytes
        → create_one lib sdk current self p
          ≡ ok (id, deploy account balance method args deposit gas ∷ promises)
        → IsAccount forwarder
        → names_length s ≤ 220
        → m.current ≡ account
        → m.storage state_storage_key ≡ none
        → name c.entry ≡ method
        → c.input_bytes ≡ args
        → (account ≡ id) × IsReady lib s forwarder (after lib m c)
    deploy-IsReady {id = id} {account} forwarder m c named created good short here absent called
          given =
        let (is_id, is_account, is_method, is_args) =
          deploy_fields (sym created ∙ create_one-deploys forwarder.as_bytes named) in
        (
          is_account ∙ sym is_id,
          new-IsReady m c s forwarder (name-new c.entry (called ∙ is_method)) good
              (here ∙ is_account) valid short absent (given ∙ is_args),
        )
