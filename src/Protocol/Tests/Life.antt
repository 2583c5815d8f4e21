-- ===== src/Protocol/Tests/Life.antt =====
-- The creation of a lasting forwarder at concrete calls.
use aurora_forwarder_contrac.Base.{◌≡◌, ◌⊎◌, refl, List, [], ◌∷◌, Bytes, codes, ok, arith}
use aurora_forwarder_contrac.Crates.Reference.{reference, reference-IsDocumented}
use aurora_forwarder_contrac.Factory.{
  AuroraForwarderFactory, DeployParameters, deploy, then_storage_deposit, create, init_balance,
  forwarder_new_gas, storage_balance_bound,
}
use aurora_forwarder_contrac.Factory.Fixtures.{strict, strict-IsDocumentedSdk}
use aurora_forwarder_contrac.Forwarder.AccountId.Grammar.{IsName, validate_iff}
use aurora_forwarder_contrac.Forwarder.Contract.Exports.{Entry}
use aurora_forwarder_contrac.Forwarder.Contract.Spec.{IsReady}
use aurora_forwarder_contrac.Forwarder.Fixtures.{
  aurora, wrap_near, fees_near, owner_near, usdt_near, owner_near-IsAccount, usdt_near-IsAccount,
  aurora-IsAccount, address, state_for, state_for-IsState, fresh, made,
}
use aurora_forwarder_contrac.Forwarder.Host.Machine.{Machine}
use aurora_forwarder_contrac.Forwarder.Params.Layout.{state_bytes}
use aurora_forwarder_contrac.Forwarder.Safety.{Call}
use aurora_forwarder_contrac.Forwarder.Chain.{
  Event, called, deleted, take_deletion, happen, history, IsDestroyedBy,
}
use aurora_forwarder_contrac.Forwarder.Chain.Until.{IsDeleted}
use aurora_forwarder_contrac.Protocol.Deploy.{IsAskedFor}
use aurora_forwarder_contrac.Protocol.Life.{account_for, create-lasts}
use aurora_forwarder_contrac.Utils.{trim_start_0x}

abbrev factory : AuroraForwarderFactory
factory = record { owner = owner_near.as_bytes; fees_contract_id = fees_near.as_bytes }

abbrev asked_for : DeployParameters
asked_for = record {
  target_address = address.raw;
  target_network = aurora.as_bytes;
  wnear_contract_id = wrap_near.as_bytes;
}

asked_for-IsAskedFor : IsAskedFor strict owner_near.as_bytes factory asked_for (state_for aurora)
unfolding trim_start_0x
asked_for-IsAskedFor = record {
  address = refl;
  network = refl;
  wnear = refl;
  fees = refl;
  owner = refl;
}

owner_near-IsName : IsName owner_near.as_bytes
owner_near-IsName = ((validate_iff owner_near.as_bytes).0.0 owner_near-IsAccount).2

abbrev account : Bytes
account = (account_for strict owner_near.as_bytes factory asked_for).as_bytes

abbrev at_account : Machine
at_account = record (fresh owner_near 0 [] []) { current = account }

abbrev call_of_new : Call
call_of_new = made Entry.new owner_near 0 (state_bytes reference (state_for aurora)) []

-- A second `new`, the wish of a stranger to destroy the forwarder, and the factory's `destroy` with
-- the deletion behind it.
abbrev later_events : List Event
later_events =
    called (made Entry.new usdt_near 0 (state_bytes reference (state_for usdt_near)) [])
    ∷ called (made Entry.destroy usdt_near 0 [] [])
    ∷ called (made Entry.destroy owner_near 0 [] [])
    ∷ deleted
    ∷ []

create-lasts_example :
    let m = happen reference at_account (called call_of_new) in
    (create reference strict owner_near.as_bytes owner_near.as_bytes factory (asked_for ∷ [])
      ≡ ok (
        account ∷ [],
        deploy account init_balance
              (codes "new")
              (state_bytes reference (state_for aurora))
              0
              forwarder_new_gas
            ∷ then_storage_deposit wrap_near.as_bytes account storage_balance_bound
            ∷ [],
      ))
    × IsReady reference (state_for aurora) (record { as_bytes = account }) m
    × (IsReady reference
          (state_for aurora)
          (record { as_bytes = account })
          (history reference m later_events)
        ⊎ IsDeleted reference
            (IsReady reference (state_for aurora) (record { as_bytes = account }))
            (IsDestroyedBy owner_near.as_bytes)
            m
            later_events)
unfolding take_deletion
create-lasts_example =
    create-lasts reference-IsDocumented strict-IsDocumentedSdk owner_near.as_bytes factory asked_for
      owner_near-IsName (omega arith) at_account call_of_new later_events asked_for-IsAskedFor
      (state_for-IsState aurora aurora-IsAccount) (omega arith) refl refl refl refl refl
      (usdt_near-IsAccount, (usdt_near-IsAccount, (owner_near-IsAccount, (tt, tt))))
