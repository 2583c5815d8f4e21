-- ===== src/Forwarder/Params.antt =====
-- forwarder/src/params.rs: the stored state and the parameters of the entry points, in the borsh
-- form that their derived implementations give them: the fields in the order of declaration.
pub mod Layout
pub mod Valid
pub mod RoundTrip
pub mod Buffer
use aurora_forwarder_contrac.Base.{
  ℕ, Bool, Option, none, some, [], ◌++◌, List, ◌∷◌, Bytes, codes, Result, ok, err, to_option,
}
use aurora_forwarder_contrac.Base.Results.{◌>>=◌}
use aurora_forwarder_contrac.Crates.{Crates, IoError, invalid_data}
use aurora_forwarder_contrac.Forwarder.AccountId
use aurora_forwarder_contrac.Forwarder.AccountId.{AccountId, account_eq}
use aurora_forwarder_contrac.Forwarder.Address
use aurora_forwarder_contrac.Forwarder.Address.{Address}

abbrev pub state_storage_key : Bytes
state_storage_key = codes "FWD_STATE"

pub record State : Type 0 where
  pub target_address : Address
  pub target_network : AccountId
  pub wnear_contract_id : AccountId
  pub fees_contract_id : AccountId
  pub owner_id : AccountId

-- `State::is_owner`
abbrev pub is_owner : State → AccountId → Bool
is_owner s account_id = account_eq s.owner_id account_id

pub record FeesParams : Type 0 where
  pub amount : ℕ
  pub token_id : AccountId
  pub target_network : AccountId
  pub target_address : Address

pub record ForwardParams : Type 0 where
  pub token_id : AccountId

pub record FinishForwardParams : Type 0 where
  pub amount : ℕ
  pub token_id : AccountId
  pub promise_idx : ℕ

-- `try_from_slice`: the whole slice has to be read.
abbrev pub try_from_slice {ℓ} :
    {A : Type ℓ} → (Bytes → Result IoError (A × Bytes)) → Bytes → Result IoError A
try_from_slice reader s = elim (reader s) [
  | err e ↦ err e
  | ok (a, []) ↦ ok a
  | ok (a, _ ∷ _) ↦ err invalid_data
]

module _ (lib : Crates) where
  unfoldable pub write_state : State → Result IoError Bytes
  write_state s = do
    address ← Address.serialize s.target_address
    network ← AccountId.serialize lib s.target_network
    wnear ← AccountId.serialize lib s.wnear_contract_id
    fees ← AccountId.serialize lib s.fees_contract_id
    owner ← AccountId.serialize lib s.owner_id
    ok (address ++ (network ++ (wnear ++ (fees ++ owner))))

  unfoldable pub read_state : Bytes → Result IoError (State × Bytes)
  read_state r = do
    (address, r) ← Address.deserialize_reader r
    (network, r) ← AccountId.deserialize_reader lib r
    (wnear, r) ← AccountId.deserialize_reader lib r
    (fees, r) ← AccountId.deserialize_reader lib r
    (owner, r) ← AccountId.deserialize_reader lib r
    ok (
      record {
        target_address = address;
        target_network = network;
        wnear_contract_id = wnear;
        fees_contract_id = fees;
        owner_id = owner;
      },
      r,
    )

  unfoldable pub write_fees_params : FeesParams → Result IoError Bytes
  write_fees_params p = do
    token ← AccountId.serialize lib p.token_id
    network ← AccountId.serialize lib p.target_network
    address ← Address.serialize p.target_address
    ok (lib.write_u128 p.amount ++ (token ++ (network ++ address)))

  unfoldable pub read_forward_params : Bytes → Result IoError (ForwardParams × Bytes)
  read_forward_params r = do
    (token, r) ← AccountId.deserialize_reader lib r
    ok (record { token_id = token }, r)

  unfoldable pub write_finish_params : FinishForwardParams → Result IoError Bytes
  write_finish_params p = do
    token ← AccountId.serialize lib p.token_id
    ok (lib.write_u128 p.amount ++ (token ++ lib.write_u64 p.promise_idx))

  unfoldable pub read_finish_params : Bytes → Result IoError (FinishForwardParams × Bytes)
  read_finish_params r = do
    (amount, r) ← lib.read_u128 r
    (token, r) ← AccountId.deserialize_reader lib r
    (idx, r) ← lib.read_u64 r
    ok (record { amount = amount; token_id = token; promise_idx = idx }, r)
