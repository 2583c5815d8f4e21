-- ===== src/Forwarder/Chain/Once.antt =====
-- Whatever happens to an account that starts with no state (forwarder/src/lib.rs).
use aurora_forwarder_contrac.Base.{◌≡◌, refl, ◌⊎◌, inl, inr, Option, none, some, List, [], ◌∷◌, All}
use aurora_forwarder_contrac.Crates.{Crates, IsDocumented}
use aurora_forwarder_contrac.Forwarder.AccountId.{AccountId}
use aurora_forwarder_contrac.Forwarder.AccountId.Codec.{IsAccount}
use aurora_forwarder_contrac.Forwarder.Contract.{enter}
use aurora_forwarder_contrac.Forwarder.Contract.Spec.{IsReady, IsReady-same}
use aurora_forwarder_contrac.Forwarder.Host.Machine.{Machine, machine, Action}
use aurora_forwarder_contrac.Forwarder.Lifecycle.History.{enter-IsReady, enter-once}
use aurora_forwarder_contrac.Forwarder.Lifecycle.New.{IsEmptyHere}
use aurora_forwarder_contrac.Forwarder.Params.{State}
use aurora_forwarder_contrac.Forwarder.Safety.{Call, receive, settle_kept}
use aurora_forwarder_contrac.Forwarder.Chain.{
  Event, called, deleted, take_deletion, carry_out, happen, history, IsNamed,
}
use aurora_forwarder_contrac.Forwarder.Chain.Quiet.{option_cases}
use aurora_forwarder_contrac.Forwarder.Chain.Until.{IsDeleted, IsDestroyedOr, holds_until}

-- The account has no state, or it is a forwarder in place.
abbrev IsEmptyOrReady : Crates → AccountId → Machine → Type 0
IsEmptyOrReady lib self m = IsEmptyHere self m ⊎ ((s : State) × IsReady lib s self m)

-- A deletion is scheduled and not carried out yet.
abbrev pub IsDeletionScheduled : Machine → Type 0
IsDeletionScheduled m = (left : List Action) × (take_deletion m.actions ≡ some left)

module _ {lib : Crates} (doc : IsDocumented lib) {self : AccountId} (valid : IsAccount self) where
  carry_out-IsEmptyOrReady :
      (o : Option (List Action)) (m : Machine)
      → IsEmptyOrReady lib self m
      → IsEmptyOrReady lib self (carry_out o m)
  unfolding carry_out
  carry_out-IsEmptyOrReady none m h = h
  carry_out-IsEmptyOrReady (some left) m (inl empty) = inl (refl, empty.1)
  carry_out-IsEmptyOrReady (some left) m (inr (s, ready)) = inl (refl, ready.here)

  pub called-IsReady :
      (s : State) (c : Call) (m : Machine)
      → IsReady lib s self m
      → IsReady lib s self (happen lib m (called c))
  unfolding happen
  called-IsReady s c m ready =
      settle_kept (IsReady lib s self) m (enter machine lib c.entry (receive c m)) ready
        (enter-IsReady doc valid s c.entry (receive c m) (IsReady-same refl refl ready))

  happen-IsEmptyOrReady :
      (e : Event) (m : Machine)
      → IsEmptyOrReady lib self m
      → IsEmptyOrReady lib self (happen lib m e)
  unfolding happen
  happen-IsEmptyOrReady deleted m h = carry_out-IsEmptyOrReady (take_deletion m.actions) m h
  happen-IsEmptyOrReady (called c) m (inl empty) =
      enter-once doc valid c.entry m (receive c m) empty empty
  happen-IsEmptyOrReady (called c) m (inr (s, ready)) = inr (s, called-IsReady s c m ready)

  history-IsEmptyOrReady :
      (m : Machine) (es : List Event)
      → IsEmptyOrReady lib self m
      → IsEmptyOrReady lib self (history lib m es)
  unfolding history
  history-IsEmptyOrReady m [] h = h
  history-IsEmptyOrReady m (e ∷ es) h =
      history-IsEmptyOrReady (happen lib m e) es (happen-IsEmptyOrReady e m h)

  -- A state is replaced only after the owner has had the account deleted, as long as the full access
  -- key that `new` adds is not used on it. Whatever calls an account
  -- with a valid name and no state gets, in whatever order, from whomever and with whatever input
  -- and promise results, and whenever the host carries out the deletions that have been scheduled,
  -- afterwards the account has no state, or it is a forwarder in place with some valid state that
  -- it can load. In that case further events from callers with valid names leave it in place with
  -- this state, or a deletion was carried out; up to it the forwarder was in place with this
  -- state, and its owner had called `destroy`, or the deletion was already scheduled before.
  pub history-once :
      (m : Machine) (es fs : List Event)
      → IsEmptyHere self m
      → All IsNamed fs
      → let m' = history lib m es in
        IsEmptyHere self m'
        ⊎ ((s : State) × IsReady lib s self m'
            × (IsReady lib s self (history lib m' fs)
                ⊎ IsDeleted lib
                    (IsReady lib s self)
                    (IsDestroyedOr s (IsDeletionScheduled m'))
                    m'
                    fs))
  history-once m es fs empty named = elim (history-IsEmptyOrReady m es (inl empty)) [
    | inl still ↦ inl still
    | inr (s, ready) ↦ inr (
      s,
      ready,
      holds_until doc (IsReady lib s self) (λ m h. h) (called-IsReady s)
          (IsDeletionScheduled (history lib m es)) (history lib m es) fs ready
          (option_cases (take_deletion (history lib m es).actions)) named,
    )
  ]
