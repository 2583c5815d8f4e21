-- ===== src/Protocol/Create.antt =====
-- A `create` of the factory for several forwarders (factory/src/lib.rs).
use aurora_forwarder_contrac.Base.{
  ℕ, ◌≤◌, ◌≡◌, refl, List, [], ◌∷◌, map, Bytes, bytes_eq_iff, codes, length, length-map, ok, arith,
}
use aurora_forwarder_contrac.Crates.{Crates, IsDocumented}
use aurora_forwarder_contrac.Factory.{
  Sdk, AuroraForwarderFactory, DeployParameters, FactoryPromise, deploy, then_storage_deposit,
  create, create_all, create_forwarder_id, assert_number, init_balance, forwarder_new_gas,
  storage_balance_bound,
}
use aurora_forwarder_contrac.Forwarder.Params.{State}
use aurora_forwarder_contrac.Forwarder.Params.Layout.{IsState, state_bytes}
use aurora_forwarder_contrac.Protocol.Deploy.{IsAskedFor, create_one-deploys}

-- One forwarder that is asked for: its parameters, the state that they stand for, and its account.
pub record Order (sdk : Sdk) (current : Bytes) (self : AuroraForwarderFactory) : Type 0 where
  pub params : DeployParameters
  pub state : State
  pub id : Bytes
  pub asked : IsAskedFor sdk current self params state
  pub valid : IsState state
  pub named :
      create_forwarder_id sdk current params.target_address params.target_network
        self.fees_contract_id
      ≡ ok id

assert_number-ok :
    (lib : Crates) (sdk : Sdk) (current : Bytes) (n : ℕ)
    → 1 ≤ n
    → n ≤ 12
    → assert_number lib sdk current n ≡ ok tt
unfolding assert_number
assert_number-ok lib sdk current n some_left few = ground arith

module _ {lib : Crates} (doc : IsDocumented lib) (sdk : Sdk) (current : Bytes)
    (self : AuroraForwarderFactory) where
  -- What the orders make the factory schedule: two promises for each, in their order.
  abbrev pub ordered : List (Order sdk current self) → List FactoryPromise
  ordered [] = []
  ordered (x ∷ xs) =
      deploy x.id init_balance (codes "new") (state_bytes lib x.state) 0 forwarder_new_gas
      ∷ then_storage_deposit x.params.wnear_contract_id x.id storage_balance_bound
      ∷ ordered xs

  create_all-ordered :
      (orders : List (Order sdk current self))
      → create_all lib sdk current self (map (λ (x : Order sdk current self). x.params) orders)
        ≡ ok (map (λ (x : Order sdk current self). x.id) orders, ordered orders)
  unfolding create_all
  create_all-ordered [] = refl
  create_all-ordered (x ∷ xs) = rw (
    create_one-deploys doc sdk current self x.params x.asked x.valid x.id x.named,
    create_all-ordered xs,
  )

  -- A `create` in order goes through. Called by the factory itself for one to twelve forwarders,
  -- each asked for with a valid state and with a name that can be parsed, it returns their accounts
  -- and schedules for each, in the order of the parameters, the deployment of its account with a call
  -- of `new` on the bytes of its state, and behind it the account's registration with wNEAR.
  pub create-ordered :
      (orders : List (Order sdk current self))
      → 1 ≤ length orders
      → length orders ≤ 12
      → create lib sdk current current self (map (λ (x : Order sdk current self). x.params) orders)
        ≡ ok (map (λ (x : Order sdk current self). x.id) orders, ordered orders)
  unfolding create
  create-ordered orders some_left few =
      let same_length = length-map (λ (x : Order sdk current self). x.params) orders in
      rw (
        (bytes_eq_iff current current).1 refl,
        same_length,
        assert_number-ok lib sdk current (length orders) some_left few,
        create_all-ordered orders,
      )
