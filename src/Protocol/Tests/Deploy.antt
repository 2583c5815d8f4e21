-- ===== src/Protocol/Tests/Deploy.antt =====
-- The creation of a forwarder at concrete calls.

use aurora_forwarder_contrac.Base.{◌≡◌, refl, some, List, [], ◌∷◌, codes, take, bytes_eq, ok, arith}
use aurora_forwarder_contrac.Crates.Reference.{reference, reference-IsDocumented, str}
use aurora_forwarder_contrac.Factory.{
  Sdk, AuroraForwarderFactory, DeployParameters, FactoryPromise, deploy, then_storage_deposit,
  create_one, create_forwarder_id, init_balance, forwarder_new_gas, storage_balance_bound,
  write_parameters,
}
use aurora_forwarder_contrac.Utils.{forwarder_prefix, hashed, trim_start_0x}
use aurora_forwarder_contrac.Protocol.Create.{Order, create-ordered}
use aurora_forwarder_contrac.Factory.{create}
use aurora_forwarder_contrac.Protocol.Deploy.{IsAskedFor, deploy-IsReady}
use aurora_forwarder_contrac.Forwarder.Contract.Spec.{IsReady}
use aurora_forwarder_contrac.Forwarder.AccountId.{AccountId, validate}
use aurora_forwarder_contrac.Forwarder.AccountId.Codec.{IsAccount}
use aurora_forwarder_contrac.Forwarder.Contract.Exports.{Entry}
use aurora_forwarder_contrac.Forwarder.Fixtures.{
  aurora, wrap_near, fees_near, owner_near, aurora-IsAccount, address, state_for, state_for-IsState,
  fresh, made,
}
use aurora_forwarder_contrac.Forwarder.Flow.Steps.{after}
use aurora_forwarder_contrac.Forwarder.Host.Machine.{Machine}
use aurora_forwarder_contrac.Forwarder.Params.Layout.{state_bytes}
use aurora_forwarder_contrac.Forwarder.Safety.{Call}

-- A factory whose account parser takes every text, and hashes that keep a part of theirs.
abbrev simple : Sdk
simple = record {
  hashing = record { keccak256 = take 4; bs58_encode = take 4 };
  parse_account = some;
  decode_address = λ s. some address.raw;
}

abbrev factory : AuroraForwarderFactory
factory = record { owner = owner_near.as_bytes; fees_contract_id = fees_near.as_bytes }

abbrev one_forwarder : DeployParameters
one_forwarder = record {
  target_address = codes "0x0102";
  target_network = aurora.as_bytes;
  wnear_contract_id = wrap_near.as_bytes;
}

one_forwarder-IsAskedFor :
    IsAskedFor simple owner_near.as_bytes factory one_forwarder (state_for aurora)
one_forwarder-IsAskedFor = record {
  address = refl;
  network = refl;
  wnear = refl;
  fees = refl;
  owner = refl;
}

abbrev new_forwarder : AccountId
new_forwarder = record { as_bytes = codes "0102.owner.near" }

new_forwarder-IsAccount : IsAccount new_forwarder
unfolding validate
new_forwarder-IsAccount = refl

new_forwarder-named :
    create_forwarder_id simple owner_near.as_bytes one_forwarder.target_address
      one_forwarder.target_network factory.fees_contract_id
    ≡ ok new_forwarder.as_bytes
unfolding create_forwarder_id forwarder_prefix hashed trim_start_0x bytes_eq
new_forwarder-named = refl

abbrev new_promises : List FactoryPromise
new_promises =
    deploy new_forwarder.as_bytes init_balance (codes "new")
      (state_bytes reference (state_for aurora)) 0 forwarder_new_gas
    ∷ then_storage_deposit wrap_near.as_bytes new_forwarder.as_bytes storage_balance_bound
    ∷ []

new_created :
    create_one reference simple owner_near.as_bytes factory one_forwarder
    ≡ ok (new_forwarder.as_bytes, new_promises)
unfolding create_one create_forwarder_id write_parameters trim_start_0x hashed forwarder_prefix
    bytes_eq str
new_created = refl

abbrev created_account : Machine
created_account = record (fresh owner_near 0 [] []) { current = new_forwarder.as_bytes }

abbrev call_of_new : Call
call_of_new = made Entry.new owner_near 0 (state_bytes reference (state_for aurora)) []

deploy-IsReady_example :
    (new_forwarder.as_bytes ≡ new_forwarder.as_bytes)
    × IsReady reference
        (state_for aurora)
        new_forwarder
        (after reference created_account call_of_new)
deploy-IsReady_example =
    deploy-IsReady reference-IsDocumented simple owner_near.as_bytes factory one_forwarder
      one_forwarder-IsAskedFor (state_for-IsState aurora aurora-IsAccount) new_forwarder
      created_account call_of_new new_forwarder-named new_created new_forwarder-IsAccount
      (omega arith) refl refl refl refl

abbrev one_order : Order simple owner_near.as_bytes factory
one_order = record {
  params = one_forwarder;
  state = state_for aurora;
  id = new_forwarder.as_bytes;
  asked = one_forwarder-IsAskedFor;
  valid = state_for-IsState aurora aurora-IsAccount;
  named = new_forwarder-named;
}

create-ordered_example :
    create reference simple owner_near.as_bytes owner_near.as_bytes factory (one_forwarder ∷ [])
    ≡ ok (new_forwarder.as_bytes ∷ [], new_promises)
create-ordered_example =
    create-ordered reference-IsDocumented simple owner_near.as_bytes factory (one_order ∷ [])
      (omega arith) (omega arith)
