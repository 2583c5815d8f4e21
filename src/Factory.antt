-- ===== src/Factory.antt =====
-- factory/src/lib.rs: the factory contract, which creates forwarders. A method takes the
-- predecessor's and the contract's own account; what it schedules is a list beside its value.
pub mod Parameters
pub mod Create
pub mod Names
pub mod Fixtures
pub mod Tests
use aurora_forwarder_contrac.Base.{
  ℕ, ◌+◌, ◌≡◌, [], ◌∷◌, List, ◌++◌, Bytes, Option, none, some, codes, bytes_eq, length, ltb, ◌==◌,
  Bool, true, false, if◌then◌else◌, Result, ok, err, map_err, ok_or,
}
use aurora_forwarder_contrac.Base.Results.{◌>>=◌}
use aurora_forwarder_contrac.Crates.{Crates}
use aurora_forwarder_contrac.Utils.{Hashing, trim_start_0x, forwarder_prefix}

abbrev pub storage_balance_bound : ℕ
storage_balance_bound = 1_250_000_000_000_000_000_000

abbrev pub forwarder_new_gas : ℕ
forwarder_new_gas = 2_000_000_000_000

abbrev pub forward_tokens_gas : ℕ
forward_tokens_gas = 150_000_000_000_000

abbrev pub max_num_contracts : ℕ
max_num_contracts = 12

abbrev pub init_balance : ℕ
init_balance = 310_000_000_000_000_000_000_000

-- What the factory calls of near-sdk and aurora-engine-types: the parser of account names, the
-- decoder of hexadecimal addresses, and the hashes. An `AccountId` of near-sdk is its text.
pub record Sdk : Type 0 where
  pub hashing : Hashing
  pub parse_account : Bytes → Option Bytes
  pub decode_address : Bytes → Option Bytes

pub record AuroraForwarderFactory : Type 0 where
  pub owner : Bytes
  pub fees_contract_id : Bytes

pub record DeployParameters : Type 0 where
  pub target_address : Bytes
  pub target_network : Bytes
  pub wnear_contract_id : Bytes

pub record ForwarderParameters : Type 0 where
  pub target_address : Bytes
  pub target_network : Bytes
  pub wnear_contract_id : Bytes
  pub fees_contract_id : Bytes
  pub owner_id : Bytes

pub data FactoryPanic : Type 0 where
  method_is_private : FactoryPanic
  empty_parameters : FactoryPanic
  too_many_contracts : FactoryPanic
  bad_account : FactoryPanic
  bad_address : FactoryPanic
  no_args : FactoryPanic

-- The promises of the factory.
pub data FactoryPromise : Type 0 where
  -- a new account with a balance and the forwarder's code, on which a method is called with
  -- arguments, a deposit and gas
  deploy : Bytes → ℕ → Bytes → Bytes → ℕ → ℕ → FactoryPromise
  -- behind it, the registration of an account with a token, for a deposit
  then_storage_deposit : Bytes → Bytes → ℕ → FactoryPromise
  -- a call of a forwarder: method, arguments, deposit and gas, `none` for what is left
  forwarder_call : Bytes → Bytes → Bytes → ℕ → Option ℕ → FactoryPromise

-- `#[private]`
abbrev pub assert_private : Bytes → Bytes → Result FactoryPanic (Unit {0})
assert_private predecessor current =
    if bytes_eq predecessor current then ok tt else err method_is_private

unfoldable pub new : Bytes → Bytes → AuroraForwarderFactory
new predecessor fees_contract_id = record {
  owner = predecessor;
  fees_contract_id = fees_contract_id;
}

unfoldable pub create_forwarder_id : Sdk → Bytes → Bytes → Bytes → Bytes → Result FactoryPanic Bytes
create_forwarder_id sdk current address network fees_contract_id =
    let prefix = forwarder_prefix sdk.hashing address network fees_contract_id in
    ok_or (sdk.parse_account (prefix ++ (codes "." ++ current))) bad_account

-- `borsh::to_vec` of the parameters
unfoldable pub write_parameters : Crates → ForwarderParameters → Result FactoryPanic Bytes
write_parameters lib p = do
  network ← map_err (λ _. no_args) (lib.write_str p.target_network)
  wnear ← map_err (λ _. no_args) (lib.write_str p.wnear_contract_id)
  fees ← map_err (λ _. no_args) (lib.write_str p.fees_contract_id)
  owner ← map_err (λ _. no_args) (lib.write_str p.owner_id)
  ok (p.target_address ++ (network ++ (wnear ++ (fees ++ owner))))

module _ (lib : Crates) (sdk : Sdk) (current : Bytes) where
  -- The closure of `create`: the account and the promises of one forwarder.
  unfoldable pub create_one :
      AuroraForwarderFactory → DeployParameters → Result FactoryPanic (Bytes × List FactoryPromise)
  create_one self params = do
    forwarder_id ←
        create_forwarder_id sdk current params.target_address params.target_network
          self.fees_contract_id
    address ← ok_or (sdk.decode_address (trim_start_0x params.target_address)) bad_address
    args ← write_parameters lib (record {
      target_address = address;
      target_network = params.target_network;
      wnear_contract_id = params.wnear_contract_id;
      fees_contract_id = self.fees_contract_id;
      owner_id = current;
    })
    ok (
      forwarder_id,
      deploy forwarder_id init_balance (codes "new") args 0 forwarder_new_gas
          ∷ then_storage_deposit params.wnear_contract_id forwarder_id storage_balance_bound
          ∷ [],
    )

  -- `parameters.into_iter().map(...).collect()`
  unfoldable pub create_all :
      AuroraForwarderFactory
      → List DeployParameters
      → Result FactoryPanic (List Bytes × List FactoryPromise)
  create_all self [] = ok ([], [])
  create_all self (params ∷ rest) = do
    (id, ps) ← create_one self params
    (ids, qs) ← create_all self rest
    ok (id ∷ ids, ps ++ qs)

  -- The two assertions of `create` on the number of parameters.
  unfoldable pub assert_number : ℕ → Result FactoryPanic (Unit {0})
  assert_number n =
      if n == 0
      then err empty_parameters
      else if ltb max_num_contracts n
      then err too_many_contracts
      else ok tt

  unfoldable pub create :
      Bytes
      → AuroraForwarderFactory
      → List DeployParameters
      → Result FactoryPanic (List Bytes × List FactoryPromise)
  create predecessor self parameters = do
    _ ← assert_private predecessor current
    _ ← assert_number (length parameters)
    create_all self parameters

  -- The token's id is written in borsh.
  unfoldable pub forward_tokens : Bytes → Bytes → Bytes → Result FactoryPanic FactoryPromise
  forward_tokens predecessor forwarder_id token_id = do
    _ ← assert_private predecessor current
    args ← map_err (λ _. no_args) (lib.write_str token_id)
    ok (forwarder_call forwarder_id (codes "forward") args 1 (some forward_tokens_gas))

  unfoldable pub set_fees_contract_id :
      Bytes → AuroraForwarderFactory → Bytes → Result FactoryPanic AuroraForwarderFactory
  set_fees_contract_id predecessor self fees_contract_id = do
    _ ← assert_private predecessor current
    ok (record self { fees_contract_id = fees_contract_id })

  unfoldable pub destroy_forwarder : Bytes → Bytes → Result FactoryPanic FactoryPromise
  destroy_forwarder predecessor account_id = do
    _ ← assert_private predecessor current
    ok (forwarder_call account_id (codes "destroy") [] 0 none)

unfoldable pub get_fees_contract_id : AuroraForwarderFactory → Bytes
get_fees_contract_id self = self.fees_contract_id
