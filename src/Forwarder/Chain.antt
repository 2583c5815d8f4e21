-- ===== src/Forwarder/Chain.antt =====
-- An account of a forwarder on the chain (forwarder/src/lib.rs): the calls that it gets, and its
-- deletion, which `destroy` schedules and the host carries out later.
pub mod Quiet
pub mod Until
pub mod Destroy
pub mod Safe
pub mod Once
pub mod Tests
use aurora_forwarder_contrac.Base.{
  ◌≡◌, ◌≢◌, ◌⊎◌, inl, inr, Option, none, some, List, [], ◌∷◌, Bytes,
}
use mathlib.Core.Option
use aurora_forwarder_contrac.Crates.{Crates}
use aurora_forwarder_contrac.Forwarder.AccountId.{AccountId}
use aurora_forwarder_contrac.Forwarder.AccountId.Codec.{IsAccount}
use aurora_forwarder_contrac.Forwarder.Contract.{enter}
use aurora_forwarder_contrac.Forwarder.Contract.Exports.{Entry}
use aurora_forwarder_contrac.Forwarder.Host.Machine.{Machine, machine, Action, add_key, delete}
use aurora_forwarder_contrac.Forwarder.Params.{State}
use aurora_forwarder_contrac.Forwarder.Safety.{Call, receive, settle}

-- What happens to the account: a call, or the host comes to a deletion that has been scheduled. A
-- transaction that the holder of a full access key signs for the account, such as another
-- deployment, is no event.
pub data Event : Type 0 where
  called : Call → Event
  deleted : Event

-- The actions left without the first deletion, if there is one.
unfoldable pub take_deletion : List Action → Option (List Action)
take_deletion [] = none
take_deletion (delete _ _ ∷ as') = some as'
take_deletion (add_key n k nonce ∷ as') =
    Option.map (λ left. add_key n k nonce ∷ left) (take_deletion as')

-- The deletion clears the account, the contract with its storage. A call that comes later is one on
-- an account that has been made again, under the same name and with the same contract.
unfoldable pub carry_out : Option (List Action) → Machine → Machine
carry_out none m = m
carry_out (some left) m = record m { storage = λ k. none; actions = left }

unfoldable pub happen : Crates → Machine → Event → Machine
happen lib m (called c) = settle m (enter machine lib c.entry (receive c m))
happen lib m deleted = carry_out (take_deletion m.actions) m

-- The events in turn.
unfoldable pub history : Crates → Machine → List Event → Machine
history lib m [] = m
history lib m (e ∷ es) = history lib (happen lib m e) es

-- No deletion is scheduled that has not been carried out.
abbrev pub IsQuiet : Machine → Type 0
IsQuiet m = take_deletion m.actions ≡ none

abbrev pub caller_of : Call → AccountId
caller_of c = record { as_bytes = c.predecessor }

-- The caller has a valid name, as NEAR has it of every account.
abbrev pub IsNamed : Event → Type 0
IsNamed (called c) = IsAccount (caller_of c)
IsNamed deleted = Unit

-- The event is no call of `destroy`, or one by another account than the owner.
abbrev pub IsHarmless : State → Event → Type 0
IsHarmless s (called c) =
    (c.entry ≢ Entry.destroy) ⊎ (IsAccount (caller_of c) × (c.predecessor ≢ s.owner_id.as_bytes))
IsHarmless s deleted = Unit

-- One of the events is a call of `destroy` by the owner.
pub data IsDestroyedBy (owner : Bytes) : List Event → Type 0 where
  here :
      (c : Call) (es : List Event)
      → c.entry ≡ Entry.destroy
      → c.predecessor ≡ owner
      → IsDestroyedBy owner (called c ∷ es)
  there : (e : Event) (es : List Event) → IsDestroyedBy owner es → IsDestroyedBy owner (e ∷ es)
