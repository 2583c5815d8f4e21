-- ===== src/Forwarder/Contract/Spec.antt =====
-- The words in which the behaviour of the entry points is stated: a contract that is in place, and
-- what a call leaves behind on the host.
use aurora_forwarder_contrac.Base.{
  ℕ, ◌+◌, ◌≤◌, ◌≡◌, refl, sym, ◌∙◌, some, List, ◌++◌, Bytes, length, ok, err, Panic, arith,
}
use mathlib.Core.Path.{subst}
use aurora_forwarder_contrac.Base.Results.{Outcome}
use aurora_forwarder_contrac.Crates.{Crates, IsDocumented}
use aurora_forwarder_contrac.Forwarder.AccountId.{AccountId}
use aurora_forwarder_contrac.Forwarder.AccountId.Codec.{IsAccount}
use aurora_forwarder_contrac.Forwarder.Host.Machine.{
  Machine, machine, Promise, Action, set_register,
}
use aurora_forwarder_contrac.Forwarder.Host.{Host}
use aurora_forwarder_contrac.Forwarder.Host.Lawful.{IsLawful, seen}
use aurora_forwarder_contrac.Forwarder.Runtime.Steps.{Ends}
use aurora_forwarder_contrac.Forwarder.Contract.{enter}
use aurora_forwarder_contrac.Forwarder.Contract.Exports.{Entry}
use aurora_forwarder_contrac.Forwarder.Contract.Sim.{enter_refines}
use aurora_forwarder_contrac.Forwarder.Params.{State, state_storage_key}
use aurora_forwarder_contrac.Forwarder.Params.Layout.{
  IsState, names_length, state_bytes, length-state_bytes,
}
use aurora_forwarder_contrac.Forwarder.Params.RoundTrip.{read_state-bytes}
use aurora_forwarder_contrac.Forwarder.Runtime.Io
use aurora_forwarder_contrac.Forwarder.Runtime.Run.{load-run}

-- The contract runs on the account `self` and has stored the state `s`, which fits its buffer.
pub record IsReady (lib : Crates) (s : State) (self : AccountId) (m : Machine) : Type 0 where
  pub stored : m.storage state_storage_key ≡ some (state_bytes lib s)
  pub state : IsState s
  pub fits : names_length s ≤ 220
  pub valid : IsAccount self
  pub here : m.current ≡ self.as_bytes

-- The call succeeds; it has scheduled the promises `ps` and the batch actions `as'` behind those
-- that `m` had, the last promise returned is number `back` of the new ones, and storage is as
-- before.
abbrev pub Schedules :
    Machine → List Promise → List Action → ℕ → Outcome (Unit {0}) × Machine → Type 0
Schedules m ps actions back o =
    (o.0 ≡ ok tt)
    × (o.1.promises ≡ m.promises ++ ps)
    × (o.1.actions ≡ m.actions ++ actions)
    × (o.1.returned ≡ some (length m.promises + back))
    × (o.1.storage ≡ m.storage)

-- The call panics with `p`, and up to there has scheduled nothing and stored nothing.
abbrev pub Refuses : Machine → Panic → Outcome (Unit {0}) × Machine → Type 0
Refuses m p o =
    (o.0 ≡ err p)
    × (o.1.promises ≡ m.promises)
    × (o.1.actions ≡ m.actions)
    × (o.1.returned ≡ m.returned)
    × (o.1.storage ≡ m.storage)

module _ {lib : Crates} (doc : IsDocumented lib) {s : State} {self : AccountId} where
  -- `State::load` on a contract that is in place.
  pub load-ready :
      (m : Machine)
      → IsReady lib s self m
      → Io.load machine lib m ≡ (ok (some s), set_register 0 (state_bytes lib s) m)
  load-ready m r =
      load-run lib m (state_bytes lib s) r.stored
        (omega (arith, length-state_bytes doc s r.state, r.fits)) (read_state-bytes doc s r.state)

-- Being in place is a matter of storage and of the account alone.
pub IsReady-same :
    {lib : Crates} {s : State} {self : AccountId} {m m' : Machine}
    → m'.storage ≡ m.storage
    → m'.current ≡ m.current
    → IsReady lib s self m
    → IsReady lib s self m'
IsReady-same storage current r = record {
  stored = (λ i. storage i state_storage_key) ∙ r.stored;
  state = r.state;
  fits = r.fits;
  valid = r.valid;
  here = current ∙ r.here;
}

-- Registers are no part of being in place.
pub set_register-IsReady :
    {lib : Crates} {s : State} {self : AccountId} (k : ℕ) (v : Bytes) {m : Machine}
    → IsReady lib s self m
    → IsReady lib s self (set_register k v m)
set_register-IsReady k v r = IsReady-same refl refl r

-- What holds of a run on the machine holds of what is seen of a run on a lawful host.
module _ {h : Host} {view : h.World → Machine} (law : IsLawful h view) (lib : Crates) where
  pub over_host :
      (e : Entry) (w : h.World) (Q : Outcome (Unit {0}) × Machine → Type 0)
      → Ends Q (enter machine lib e (view w))
      → Q (seen view (enter h lib e w))
  over_host e w Q ends = subst Q (sym (enter_refines law lib e w)) ends.holds
