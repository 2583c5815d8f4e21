-- ===== src/Forwarder/Safety/History.antt =====
-- A call on a forwarder in place, over any lawful host.
use aurora_forwarder_contrac.Base.{sym, ap}
use mathlib.Core.Path.{subst}
use aurora_forwarder_contrac.Base.Results.{Outcome}
use aurora_forwarder_contrac.Crates.{Crates, IsDocumented}
use aurora_forwarder_contrac.Forwarder.AccountId.{AccountId}
use aurora_forwarder_contrac.Forwarder.Contract.{enter}
use aurora_forwarder_contrac.Forwarder.Contract.Exports.{Entry}
use aurora_forwarder_contrac.Forwarder.Contract.Sim.{enter_refines}
use aurora_forwarder_contrac.Forwarder.Host.{Host}
use aurora_forwarder_contrac.Forwarder.Host.Lawful.{IsLawful}
use aurora_forwarder_contrac.Forwarder.Host.Machine.{Machine}
use aurora_forwarder_contrac.Forwarder.Params.{State}
use aurora_forwarder_contrac.Forwarder.Safety.{IsSafe}
use aurora_forwarder_contrac.Forwarder.Safety.Entries.{enter-IsSafe}

module _ {lib : Crates} (doc : IsDocumented lib) {s : State} {self : AccountId} where
  module _ {h : Host} {view : h.World → Machine} (law : IsLawful h view) where
    -- On any lawful host, a call of any entry point keeps a contract in place as it is, with the
    -- same state, and schedules only what is allowed, also where it panics.
    pub enter-IsSafe_host :
        (e : Entry) (w : h.World)
        → IsSafe lib s self (view w)
        → IsSafe lib s self (view (enter h lib e w).1)
    enter-IsSafe_host e w safe =
        subst (λ (m : Machine). IsSafe lib s self m)
          (sym (ap (λ (o : Outcome (Unit {0}) × Machine). o.1) (enter_refines law lib e w)))
          (enter-IsSafe doc e (view w) safe)
