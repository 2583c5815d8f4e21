-- ===== src/Forwarder/Chain/Tests.antt =====
-- The theorems on the history of an account at concrete events.
use aurora_forwarder_contrac.Base.{◌⊎◌, refl, [], ◌∷◌, List}
use aurora_forwarder_contrac.Crates.Reference.{reference, reference-IsDocumented}
use aurora_forwarder_contrac.Forwarder.AccountId.Codec.{encoding}
use aurora_forwarder_contrac.Forwarder.Chain.{
  Event, called, deleted, take_deletion, history, IsDestroyedBy,
}
use aurora_forwarder_contrac.Forwarder.Chain.Once.{IsDeletionScheduled, history-once}
use aurora_forwarder_contrac.Forwarder.Chain.Safe.{history-IsSafe}
use aurora_forwarder_contrac.Forwarder.Chain.Until.{IsDeleted, IsDestroyedOr}
use aurora_forwarder_contrac.Forwarder.Contract.Exports.{Entry}
use aurora_forwarder_contrac.Forwarder.Contract.Spec.{IsReady}
use aurora_forwarder_contrac.Forwarder.Fixtures.{
  aurora, owner_near, usdt_near, owner_near-IsAccount, usdt_near-IsAccount, forwarder_near,
  forwarder_near-IsAccount, native_near, state_for, fresh, in_place, in_place-IsSafe, made,
}
use aurora_forwarder_contrac.Forwarder.Host.Machine.{Machine}
use aurora_forwarder_contrac.Forwarder.Lifecycle.New.{IsEmptyHere}
use aurora_forwarder_contrac.Forwarder.Params.{State}
use aurora_forwarder_contrac.Forwarder.Params.Layout.{state_bytes}
use aurora_forwarder_contrac.Forwarder.Safety.{IsSafe, Call}

-- A forward, the destruction by the owner, a call of `new` by a stranger, and the deletion.
abbrev some_events : List Event
some_events =
    called (made Entry.forward usdt_near 1 (encoding reference native_near) [])
    ∷ called (made Entry.destroy owner_near 0 [] [])
    ∷ called (made Entry.new usdt_near 0 [] [])
    ∷ deleted
    ∷ []

history-IsSafe_example :
    IsSafe reference (state_for aurora) forwarder_near (history reference in_place some_events)
    ⊎ IsDeleted reference
        (IsSafe reference (state_for aurora) forwarder_near)
        (IsDestroyedBy owner_near.as_bytes)
        in_place
        some_events
unfolding take_deletion
history-IsSafe_example =
    history-IsSafe reference-IsDocumented in_place some_events in_place-IsSafe refl
      (usdt_near-IsAccount, (owner_near-IsAccount, (usdt_near-IsAccount, (tt, tt))))

abbrev empty_account : Machine
empty_account = fresh owner_near 0 [] []

-- A call before the initialization, `new`, and a second `new` by a stranger.
abbrev first_events : List Event
first_events =
    called (made Entry.destroy owner_near 0 [] [])
    ∷ called (made Entry.new owner_near 0 (state_bytes reference (state_for aurora)) [])
    ∷ called (made Entry.new usdt_near 0 (state_bytes reference (state_for usdt_near)) [])
    ∷ []

-- The owner destroys the forwarder, and a stranger takes the account.
abbrev later_events : List Event
later_events =
    called (made Entry.destroy owner_near 0 [] [])
    ∷ deleted
    ∷ called (made Entry.new usdt_near 0 (state_bytes reference (state_for usdt_near)) [])
    ∷ []

history-once_example :
    let m = history reference empty_account first_events in
    IsEmptyHere forwarder_near m
    ⊎ ((s : State) × IsReady reference s forwarder_near m
        × (IsReady reference s forwarder_near (history reference m later_events)
            ⊎ IsDeleted reference
                (IsReady reference s forwarder_near)
                (IsDestroyedOr s (IsDeletionScheduled m))
                m
                later_events))
history-once_example =
    history-once reference-IsDocumented forwarder_near-IsAccount empty_account first_events
      later_events (refl, refl) (owner_near-IsAccount, (tt, (usdt_near-IsAccount, tt)))

abbrev destruction : Call
destruction = made Entry.destroy owner_near 0 [] []
