-- ===== src/Forwarder/Lifecycle/History.antt =====
-- Calls on a forwarder in place, and one call on an account with no state.
use aurora_forwarder_contrac.Base.{◌≡◌, ◌≢◌, refl, ◌⊎◌, inl, inr, some, List, [], ◌∷◌, ok, err}
use aurora_forwarder_contrac.Base.Results.{Outcome}
use aurora_forwarder_contrac.Crates.{Crates, IsDocumented}
use aurora_forwarder_contrac.Forwarder.AccountId.{AccountId}
use aurora_forwarder_contrac.Forwarder.AccountId.Codec.{IsAccount}
use aurora_forwarder_contrac.Forwarder.Contract.{enter}
use aurora_forwarder_contrac.Forwarder.Contract.Exports.{Entry}
use aurora_forwarder_contrac.Forwarder.Contract.Spec.{IsReady, IsReady-same, load-ready}
use aurora_forwarder_contrac.Forwarder.Host.Machine.{Machine, machine, set_register}
use aurora_forwarder_contrac.Forwarder.Invariant.Entries.{new-Keeps}
use aurora_forwarder_contrac.Forwarder.Lifecycle.{enter-frame}
use aurora_forwarder_contrac.Forwarder.Lifecycle.New.{
  IsEmptyHere, IsEmptyHere-IsFrame, IsReady-IsFrame, new-Leads,
}
use aurora_forwarder_contrac.Forwarder.Params.{State}
use aurora_forwarder_contrac.Forwarder.Params.Layout.{state_bytes}
use aurora_forwarder_contrac.Forwarder.Runtime.Upholds.{Upholds-known, Returns}
use aurora_forwarder_contrac.Forwarder.Runtime.Io.{load}
use aurora_forwarder_contrac.Forwarder.Safety.{settle_kept}
use aurora_forwarder_contrac.Forwarder.Safety.{Call, receive, settle, calls}

pub new_or_other : (e : Entry) → (e ≡ Entry.new) ⊎ (e ≢ Entry.new)
new_or_other Entry.new = inl refl
new_or_other Entry.forward = inr (λ h. cc)
new_or_other Entry.calculate_fees_callback = inr (λ h. cc)
new_or_other Entry.finish_forward_callback = inr (λ h. cc)
new_or_other Entry.destroy = inr (λ h. cc)

settle_new :
    (lib : Crates) (self : AccountId) (m : Machine) (o : Outcome (Unit {0}) × Machine)
    → IsEmptyHere self m
    → Returns (λ _ m'. (s : State) × IsReady lib s self m') o
    → IsEmptyHere self (settle m o) ⊎ ((s : State) × IsReady lib s self (settle m o))
settle_new lib self m (ok _, m') empty ready = inr ready
settle_new lib self m (err _, m') empty ready = inl empty

module _ {lib : Crates} (doc : IsDocumented lib) {self : AccountId} (valid : IsAccount self) where
  pub enter-IsReady :
      (s : State) (e : Entry) (m : Machine)
      → IsReady lib s self m
      → IsReady lib s self (enter machine lib e m).1
  unfolding enter
  enter-IsReady s e m h =
      let frame = IsReady-IsFrame doc valid s in
      let loads =
        Upholds-known {P = IsReady lib s self} {Q = λ o. o ≡ some s} {m = load machine lib} (some s)
          (set_register 0 (state_bytes lib s)) (λ n r. load-ready doc n r)
          (λ n r. frame.at _ _ refl refl r) refl in
      elim (new_or_other e) [
        | inl is_new ↦ rw is_new ((new-Keeps lib s loads).at m h).0
        | inr other ↦ enter-frame frame lib e m other h
      ]

  -- A forwarder in place stays in place with the same state.
  pub calls-IsReady :
      (s : State) (m : Machine) (cs : List Call)
      → IsReady lib s self m
      → IsReady lib s self (calls lib m cs)
  unfolding calls
  calls-IsReady s m [] h = h
  calls-IsReady s m (c ∷ cs) h =
      let o = enter machine lib c.entry (receive c m) in
      calls-IsReady s (settle m o) cs (
        settle_kept (IsReady lib s self) m o h
          (enter-IsReady s c.entry (receive c m) (IsReady-same refl refl h)))

  -- One call on an account with no state: `m` is the host before it, and `n` the same at its start.
  pub enter-once :
      (e : Entry) (m n : Machine)
      → IsEmptyHere self m
      → IsEmptyHere self n
      → let m' = settle m (enter machine lib e n) in
        IsEmptyHere self m' ⊎ ((s : State) × IsReady lib s self m')
  unfolding enter
  enter-once e m n before empty = elim (new_or_other e) [
    | inl is_new ↦ rw is_new (
        settle_new lib self m (enter machine lib Entry.new n) before
          ((new-Leads doc valid).at n empty))
    | inr other ↦ inl (
        settle_kept (IsEmptyHere self) m (enter machine lib e n) before
          (enter-frame (IsEmptyHere-IsFrame doc valid) lib e n other empty))
  ]
