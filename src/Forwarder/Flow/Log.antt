-- ===== src/Forwarder/Flow/Log.antt =====
-- The promises of a forwarder in place (forwarder/src/lib.rs) pile up, whatever calls it gets.
use aurora_forwarder_contrac.Base.{
  ◌≡◌, ◌∙◌, sym, ap, refl, inl, inr, some, List, [], ◌∷◌, ◌++◌, append_assoc, append-nil,
}
use aurora_forwarder_contrac.Crates.{Crates, IsDocumented}
use aurora_forwarder_contrac.Forwarder.AccountId.{AccountId}
use aurora_forwarder_contrac.Forwarder.Contract.{enter}
use aurora_forwarder_contrac.Forwarder.Contract.Exports.{Entry}
use aurora_forwarder_contrac.Forwarder.Contract.Spec.{IsReady, IsReady-same, load-ready}
use aurora_forwarder_contrac.Forwarder.Host.Machine.{Machine, machine, Promise, set_register}
use aurora_forwarder_contrac.Forwarder.Invariant.{IsInvariant}
use aurora_forwarder_contrac.Forwarder.Invariant.Entries.{new-Keeps}
use aurora_forwarder_contrac.Forwarder.Lifecycle.{enter_kept}
use aurora_forwarder_contrac.Forwarder.Lifecycle.History.{new_or_other}
use aurora_forwarder_contrac.Forwarder.Params.{State}
use aurora_forwarder_contrac.Forwarder.Params.Layout.{state_bytes}
use aurora_forwarder_contrac.Forwarder.Runtime.Io.{load}
use aurora_forwarder_contrac.Forwarder.Runtime.Upholds.{Upholds-known}
use aurora_forwarder_contrac.Forwarder.Safety.{settle_kept}
use aurora_forwarder_contrac.Forwarder.Safety.{Call, receive, settle, calls}

-- The promises of `log` have been scheduled first.
abbrev pub Grows : List Promise → Machine → Type 0
Grows log m = (qs : List Promise) × (m.promises ≡ log ++ qs)

-- The contract is in place, and its log goes on from `log`.
abbrev GrowsHere : Crates → State → AccountId → List Promise → Machine → Type 0
GrowsHere lib s self log m = IsReady lib s self m × Grows log m

module _ {lib : Crates} {s : State} {self : AccountId} where
  grow_invariant :
      (log : List Promise) → IsInvariant (GrowsHere lib s self log) (λ _. Unit) (λ _. Unit)
  grow_invariant log = record {
    register = λ k v h. (IsReady-same refl refl h.0, h.1);
    returned = λ n h. (IsReady-same refl refl h.0, h.1);
    scheduled = λ p {m} a h. (
      IsReady-same refl refl h.0,
      (
        h.1.0 ++ p ∷ [],
        ap (λ (l : List Promise). l ++ p ∷ []) h.1.1 ∙ append_assoc log h.1.0 (p ∷ []),
      ),
    );
    acted = λ a b h. (IsReady-same refl refl h.0, h.1);
  }

module _ {lib : Crates} (doc : IsDocumented lib) {s : State} {self : AccountId} where
  enter_grows :
      (log : List Promise) (e : Entry) (m : Machine)
      → GrowsHere lib s self log m
      → GrowsHere lib s self log (enter machine lib e m).1
  unfolding enter
  enter_grows log e m h =
      let loads =
        Upholds-known {P = GrowsHere lib s self log} {Q = λ o. o ≡ some s} {m = load machine lib}
          (some s) (set_register 0 (state_bytes lib s)) (λ n r. load-ready doc n r.0)
          (λ n r. (grow_invariant log).register 0 _ r) refl in
      elim (new_or_other e) [
        | inl is_new ↦ rw is_new ((new-Keeps lib s loads).at m h).0
        | inr other ↦ enter_kept (grow_invariant log) lib e m other (λ _ a. tt) h
      ]

  calls_from :
      (log : List Promise) (m : Machine) (cs : List Call)
      → GrowsHere lib s self log m
      → GrowsHere lib s self log (calls lib m cs)
  unfolding calls
  calls_from log m [] h = h
  calls_from log m (c ∷ cs) h =
      let o = enter machine lib c.entry (receive c m) in
      calls_from log (settle m o) cs (
        settle_kept (GrowsHere lib s self log) m o h
          (enter_grows log c.entry (receive c m) (IsReady-same refl refl h.0, h.1)))

  -- Whatever calls a forwarder in place gets, the promises that it had scheduled before keep their
  -- numbers: new ones come behind them.
  pub calls_grow :
      (m : Machine) (cs : List Call) → IsReady lib s self m → Grows m.promises (calls lib m cs)
  calls_grow m cs ready = (calls_from m.promises m cs (ready, ([], sym (append-nil m.promises)))).1
