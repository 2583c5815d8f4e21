-- ===== src/Factory/Tests.antt =====
-- The theorems on the factory and on the prefix at concrete values.
use aurora_forwarder_contrac.Factory.Fixtures.{strict, strict-IsDocumentedSdk}
use aurora_forwarder_contrac.Forwarder.AccountId.Grammar.{IsName, validate_iff}
use aurora_forwarder_contrac.Forwarder.AccountId.{validate}
use aurora_forwarder_contrac.Factory.Names.{IsAccountName, create_forwarder_id-name}
use aurora_forwarder_contrac.Base.{
  ◌*◌, ◌≤◌, ◌≡◌, ◌≢◌, refl, [], ◌∷◌, List, ◌++◌, Bytes, none, some, codes, bytes_eq, length, take,
  ◌==◌, if◌then◌else◌, ok, err, ◌+◌, ◌<◌, ◌⊎◌,
}
use aurora_forwarder_contrac.Crates.Reference.{reference, str}
use aurora_forwarder_contrac.Factory
use aurora_forwarder_contrac.Factory.{
  Sdk, AuroraForwarderFactory, DeployParameters, FactoryPromise, deploy, then_storage_deposit,
  init_balance, forwarder_new_gas, storage_balance_bound, write_parameters, create_one, create_all,
  create_forwarder_id, assert_number, bad_account,
}
use aurora_forwarder_contrac.Factory.Create.{PrivateCall, private-IsRefused, create-length}
use aurora_forwarder_contrac.Forwarder.AccountId.Codec.{encoding}
use aurora_forwarder_contrac.Forwarder.Fixtures.{aurora, wrap_near, fees_near, owner_near}
use aurora_forwarder_contrac.Utils.{Hashing, trim_start_0x, hashed, forwarder_prefix}

-- Hashes that keep a part of what they are given.
abbrev short : Hashing
short = record { keccak256 = take 4; bs58_encode = take 4 }

-- Every text is an account, and a text of forty characters is an address.
abbrev simple : Sdk
simple = record {
  hashing = short;
  parse_account = some;
  decode_address = λ s. if length s == 40 then some (take 20 s) else none;
}

abbrev factory_near : Bytes
factory_near = codes "factory.near"

abbrev factory : AuroraForwarderFactory
factory = record { owner = owner_near.as_bytes; fees_contract_id = fees_near.as_bytes }

abbrev one_forwarder : DeployParameters
one_forwarder = record {
  target_address = codes "0x79271e4c45303443315323e69278ad59502baca1";
  target_network = aurora.as_bytes;
  wnear_contract_id = wrap_near.as_bytes;
}

abbrev new_id : Bytes
new_id = codes "7927.factory.near"

abbrev new_args : Bytes
new_args =
    codes "79271e4c453034433153"
    ++ (encoding reference aurora
        ++ (encoding reference wrap_near
            ++ (encoding reference fees_near
                ++ encoding reference (record { as_bytes = factory_near }))))

abbrev new_promises : List FactoryPromise
new_promises =
    deploy new_id init_balance (codes "new") new_args 0 forwarder_new_gas
    ∷ then_storage_deposit wrap_near.as_bytes new_id storage_balance_bound
    ∷ []

created :
    Factory.create reference simple factory_near factory_near factory (one_forwarder ∷ [])
    ≡ ok (new_id ∷ [], new_promises)
unfolding Factory.create assert_number create_all create_one create_forwarder_id write_parameters
    trim_start_0x hashed forwarder_prefix bytes_eq str
created = refl

create-length_example :
    (factory_near ≡ factory_near)
    × (1 ≤ length (one_forwarder ∷ []))
    × (length (one_forwarder ∷ []) ≤ 12)
    × (length (new_id ∷ []) ≡ length (one_forwarder ∷ []))
    × (length new_promises ≡ 2 * length (one_forwarder ∷ []))
create-length_example =
    create-length reference simple factory_near factory_near factory (one_forwarder ∷ []) created

owner-factory : owner_near.as_bytes ≢ factory_near
owner-factory h = cc

private-IsRefused_example :
    Factory.create reference simple factory_near owner_near.as_bytes factory (one_forwarder ∷ [])
    ≡ err Factory.method_is_private
private-IsRefused_example =
    private-IsRefused reference simple factory_near owner_near.as_bytes factory
      (PrivateCall.create (one_forwarder ∷ [])) owner-factory

factory_near-valid : validate factory_near ≡ ok tt
unfolding validate
factory_near-valid = refl

factory_near-IsName : IsName factory_near
factory_near-IsName = ((validate_iff factory_near).0.0 factory_near-valid).2

create_forwarder_id-name_example :
    let prefix =
      forwarder_prefix strict.hashing one_forwarder.target_address one_forwarder.target_network
        factory.fees_contract_id in
    let id = prefix ++ (codes "." ++ factory_near) in
    ((length prefix + 1 + length factory_near ≤ 64)
        × (create_forwarder_id strict factory_near one_forwarder.target_address
              one_forwarder.target_network factory.fees_contract_id
            ≡ ok id)
        × IsAccountName id
      ⊎ (64 < length prefix + 1 + length factory_near)
        × (19 < length factory_near)
        × (create_forwarder_id strict factory_near one_forwarder.target_address
              one_forwarder.target_network factory.fees_contract_id
            ≡ err bad_account))
create_forwarder_id-name_example =
    create_forwarder_id-name strict-IsDocumentedSdk one_forwarder.target_address
      one_forwarder.target_network factory.fees_contract_id factory_near factory_near-IsName
