-- ===== src/Forwarder/Chain/Safe.antt =====
-- Whatever happens to a forwarder in place, up to its deletion (forwarder/src/lib.rs).
use aurora_forwarder_contrac.Base.{refl, ◌⊎◌, List, All}
use aurora_forwarder_contrac.Crates.{Crates, IsDocumented}
use aurora_forwarder_contrac.Forwarder.AccountId.{AccountId}
use aurora_forwarder_contrac.Forwarder.Contract.{enter}
use aurora_forwarder_contrac.Forwarder.Contract.Spec.{IsReady-same}
use aurora_forwarder_contrac.Forwarder.Host.Machine.{Machine, machine}
use aurora_forwarder_contrac.Forwarder.Params.{State}
use aurora_forwarder_contrac.Forwarder.Safety.{IsSafe, Call, receive, settle_kept}
use aurora_forwarder_contrac.Forwarder.Safety.Entries.{enter-IsSafe}
use aurora_forwarder_contrac.Forwarder.Chain.{
  Event, called, happen, history, IsQuiet, IsNamed, IsDestroyedBy,
}
use aurora_forwarder_contrac.Forwarder.Chain.Until.{IsDeleted, kept_until}

module _ {lib : Crates} (doc : IsDocumented lib) {s : State} {self : AccountId} where
  receive-IsSafe : (c : Call) (m : Machine) → IsSafe lib s self m → IsSafe lib s self (receive c m)
  receive-IsSafe c m h = record {
    ready = IsReady-same refl refl h.ready;
    promises = h.promises;
    actions = h.actions;
  }

  called-IsSafe :
      (c : Call) (m : Machine) → IsSafe lib s self m → IsSafe lib s self (happen lib m (called c))
  unfolding happen
  called-IsSafe c m h =
      settle_kept (IsSafe lib s self) m (enter machine lib c.entry (receive c m)) h
        (enter-IsSafe doc c.entry (receive c m) (receive-IsSafe c m h))

  -- A forwarder stays as it is until its owner has it deleted, as long as the full access key that
  -- `new` adds is not used on it. A forwarder is in place, has scheduled only what is allowed and no
  -- deletion. Then any calls come, in whatever order, from
  -- anyone with a valid name, with any input and promise results, and the host carries out, at any
  -- time, a deletion that has been scheduled. Then the forwarder is still in place with the state
  -- it had, and all that it has scheduled is allowed; or a deletion was carried out, and up to it the
  -- forwarder was in place with this state and had scheduled only what is allowed, which lets the
  -- account be deleted only in favour of its owner, and its owner had called `destroy` before.
  pub history-IsSafe :
      (m : Machine) (es : List Event)
      → IsSafe lib s self m
      → IsQuiet m
      → All IsNamed es
      → IsSafe lib s self (history lib m es)
        ⊎ IsDeleted lib (IsSafe lib s self) (IsDestroyedBy s.owner_id.as_bytes) m es
  history-IsSafe = kept_until doc (IsSafe lib s self) (λ m h. h.ready) called-IsSafe
