-- ===== src/Forwarder/Fixtures.antt =====
-- Accounts, a state and machines for the tests.
use aurora_forwarder_contrac.Base.{
  ℕ, ◌<◌, ◌^◌, refl, Option, none, some, List, [], ◌∷◌, Bytes, codes, bytes_eq, if◌then◌else◌,
  arith,
}
use aurora_forwarder_contrac.Crates.Reference.{reference}
use aurora_forwarder_contrac.Forwarder.AccountId.{AccountId, validate}
use aurora_forwarder_contrac.Forwarder.AccountId.Codec.{IsAccount, IsAccount-bounds}
use aurora_forwarder_contrac.Forwarder.Address.{Address}
use aurora_forwarder_contrac.Forwarder.Contract.Finish.{IsFinish}
use aurora_forwarder_contrac.Forwarder.Contract.Spec.{IsReady}
use aurora_forwarder_contrac.Base.{◌+◌}
use aurora_forwarder_contrac.Forwarder.Contract.Constants.{minimum_balance}
use aurora_forwarder_contrac.Forwarder.Contract.Exports.{Entry}
use aurora_forwarder_contrac.Forwarder.Safety.{IsSafe, Call}
use aurora_forwarder_contrac.Forwarder.Host.Machine.{Machine}
use aurora_forwarder_contrac.Forwarder.Params.{State, FinishForwardParams, state_storage_key}
use aurora_forwarder_contrac.Forwarder.Params.Layout.{IsState, state_bytes, finish_params_bytes}
use aurora_forwarder_contrac.Forwarder.Promise.{PromiseResult, successful}

abbrev pub aurora : AccountId
aurora = record { as_bytes = codes "aurora" }

abbrev pub wrap_near : AccountId
wrap_near = record { as_bytes = codes "wrap.near" }

abbrev pub fees_near : AccountId
fees_near = record { as_bytes = codes "fees.near" }

abbrev pub owner_near : AccountId
owner_near = record { as_bytes = codes "owner.near" }

abbrev pub usdt_near : AccountId
usdt_near = record { as_bytes = codes "usdt.near" }

abbrev pub forwarder_near : AccountId
forwarder_near = record { as_bytes = codes "forwarder.near" }

abbrev pub native_near : AccountId
native_near = record { as_bytes = codes "near" }

-- A name of 63 letters.
abbrev pub long_name : AccountId
long_name = record {
  as_bytes = codes "aaaaaaaaaaaaaaaaaaaaaaaaaaaaaaaaaaaaaaaaaaaaaaaaaaaaaaaaaaaaaaa";
}

pub aurora-IsAccount : IsAccount aurora
unfolding validate
aurora-IsAccount = refl

pub wrap_near-IsAccount : IsAccount wrap_near
unfolding validate
wrap_near-IsAccount = refl

pub fees_near-IsAccount : IsAccount fees_near
unfolding validate
fees_near-IsAccount = refl

pub owner_near-IsAccount : IsAccount owner_near
unfolding validate
owner_near-IsAccount = refl

pub usdt_near-IsAccount : IsAccount usdt_near
unfolding validate
usdt_near-IsAccount = refl

pub forwarder_near-IsAccount : IsAccount forwarder_near
unfolding validate
forwarder_near-IsAccount = refl

pub native_near-IsAccount : IsAccount native_near
unfolding validate
native_near-IsAccount = refl

pub long_name-IsAccount : IsAccount long_name
unfolding validate
long_name-IsAccount = refl

abbrev pub address : Address
address = record {
  raw =
      1 ∷ 2 ∷ 3 ∷ 4 ∷ 5 ∷ 6 ∷ 7 ∷ 8 ∷ 9 ∷ 10 ∷ 11 ∷ 12 ∷ 13 ∷ 14 ∷ 15 ∷ 16 ∷ 17 ∷ 18 ∷ 19 ∷ 20 ∷ [];
}

-- A state for a target network.
abbrev pub state_for : AccountId → State
state_for network = record {
  target_address = address;
  target_network = network;
  wnear_contract_id = wrap_near;
  fees_contract_id = fees_near;
  owner_id = owner_near;
}

pub state_for-IsState : (network : AccountId) → IsAccount network → IsState (state_for network)
state_for-IsState network h = record {
  address = refl;
  network = h;
  wnear = wrap_near-IsAccount;
  fees = fees_near-IsAccount;
  owner = owner_near-IsAccount;
}

-- A state whose four names have 63 letters each.
abbrev pub long_state : State
long_state = record {
  target_address = address;
  target_network = long_name;
  wnear_contract_id = long_name;
  fees_contract_id = long_name;
  owner_id = long_name;
}

pub long_state-IsState : IsState long_state
long_state-IsState = record {
  address = refl;
  network = long_name-IsAccount;
  wnear = long_name-IsAccount;
  fees = long_name-IsAccount;
  owner = long_name-IsAccount;
}

-- A call by `predecessor` with a deposit, an input and promise results, on an account without state.
abbrev pub fresh : AccountId → ℕ → Bytes → List PromiseResult → Machine
fresh predecessor deposit input results = record {
  registers = λ r. none;
  storage = λ k. none;
  current = forwarder_near.as_bytes;
  signer = predecessor.as_bytes;
  predecessor = predecessor.as_bytes;
  input_bytes = input;
  height = 100;
  deposit = deposit;
  balance = 310_000_000_000_000_000_000_007;
  results = results;
  promises = [];
  actions = [];
  returned = none;
  output = none;
}

abbrev pub state_at : State → Bytes → Option Bytes
state_at s k = if bytes_eq k state_storage_key then some (state_bytes reference s) else none

-- The same with a state.
abbrev pub deployed : State → AccountId → ℕ → Bytes → List PromiseResult → Machine
deployed s predecessor deposit input results = record (fresh predecessor deposit input results) {
  storage = state_at s;
}

pub deployed-IsReady :
    (network predecessor : AccountId) (deposit : ℕ) (input : Bytes) (results : List PromiseResult)
    → IsAccount network
    → IsReady reference
        (state_for network)
        forwarder_near
        (deployed (state_for network) predecessor deposit input results)
unfolding bytes_eq
deployed-IsReady network predecessor deposit input results h = record {
  stored = refl;
  state = state_for-IsState network h;
  fits = omega (arith, IsAccount-bounds network h);
  valid = forwarder_near-IsAccount;
  here = refl;
}

abbrev pub finish_params : FinishForwardParams
finish_params = record { amount = 1000; token_id = usdt_near; promise_idx = 0 }

-- The callback of the forwarder on itself, with a fee.
abbrev pub finishing : AccountId → ℕ → Machine
finishing network fee =
    deployed (state_for network) forwarder_near 0 (finish_params_bytes reference finish_params)
      (successful (reference.write_u128 fee) ∷ [])

pub finishing-IsFinish :
    (network : AccountId) (fee : ℕ)
    → IsAccount network
    → fee < 2 ^ 128
    → IsFinish reference
        (state_for network)
        forwarder_near
        finish_params
        fee
        (finishing network fee)
finishing-IsFinish network fee h fits = record {
  ready = deployed-IsReady network forwarder_near 0 _ _ h;
  caller = refl;
  amount_fits = omega arith;
  token = usdt_near-IsAccount;
  index_fits = omega arith;
  given = refl;
  fee_fits = fits;
  result = refl;
}

-- A forwarder in place that has scheduled nothing yet.
abbrev pub in_place : Machine
in_place = deployed (state_for aurora) owner_near 0 [] []

pub in_place-IsSafe : IsSafe reference (state_for aurora) forwarder_near in_place
in_place-IsSafe = record {
  ready = deployed-IsReady aurora owner_near 0 [] [] aurora-IsAccount;
  promises = tt;
  actions = tt;
}

-- A call by an account with a deposit, an input and promise results.
abbrev pub made : Entry → AccountId → ℕ → Bytes → List PromiseResult → Call
made entry caller deposit input results = record {
  entry = entry;
  signer = owner_near.as_bytes;
  predecessor = caller.as_bytes;
  input_bytes = input;
  height = 7;
  deposit = deposit;
  balance = minimum_balance + 1000;
  results = results;
}
