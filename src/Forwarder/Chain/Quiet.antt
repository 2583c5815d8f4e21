-- ===== src/Forwarder/Chain/Quiet.antt =====
-- Without a call of `destroy` by the owner, no deletion is scheduled (forwarder/src/lib.rs).
use aurora_forwarder_contrac.Base.{
  ℕ, ◌≡◌, ◌≢◌, refl, ap, ◌∙◌, ◌⊎◌, inl, inr, none, some, List, [], ◌∷◌, ◌++◌, Bytes, Option,
  Bool-cases, bytes_eq, bytes_eq_iff, All, arith,
}
use mathlib.Core.Option
use aurora_forwarder_contrac.Crates.{Crates, IsDocumented}
use aurora_forwarder_contrac.Forwarder.AccountId.{AccountId}
use aurora_forwarder_contrac.Forwarder.Contract.{enter}
use aurora_forwarder_contrac.Forwarder.Contract.Destroy.{destroy-other}
use aurora_forwarder_contrac.Forwarder.Contract.Exports.{Entry}
use aurora_forwarder_contrac.Forwarder.Contract.Spec.{IsReady, IsReady-same, load-ready}
use aurora_forwarder_contrac.Forwarder.Host.Lawful.{machine-IsLawful}
use aurora_forwarder_contrac.Forwarder.Host.Machine.{
  Machine, machine, Action, add_key, delete, set_register,
}
use aurora_forwarder_contrac.Forwarder.Invariant.{IsInvariant}
use aurora_forwarder_contrac.Forwarder.Invariant.Entries.{new-Keeps}
use aurora_forwarder_contrac.Forwarder.Lifecycle.{enter_kept, enter-keeps_storage}
use aurora_forwarder_contrac.Forwarder.Lifecycle.History.{new_or_other}
use aurora_forwarder_contrac.Forwarder.Safety.{settle_kept}
use aurora_forwarder_contrac.Forwarder.Params.{State}
use aurora_forwarder_contrac.Forwarder.Params.Layout.{state_bytes}
use aurora_forwarder_contrac.Forwarder.Runtime.Io.{load}
use aurora_forwarder_contrac.Forwarder.Runtime.Upholds.{Upholds-known}
use aurora_forwarder_contrac.Forwarder.Safety.{Call, receive}
use aurora_forwarder_contrac.Forwarder.Chain.{
  Event, called, deleted, take_deletion, carry_out, happen, history, IsQuiet, IsNamed, IsHarmless,
}

pub nothing_left :
    (f : List Action → List Action) (o : Option (List Action)) → Option.map f o ≡ none → o ≡ none
nothing_left f none h = refl
nothing_left f (some _) h = absurd cc

-- A key that is added is no deletion.
pub take_deletion-add_key :
    (as' : List Action) (n : ℕ) (k : Bytes) (nonce : ℕ)
    → take_deletion as' ≡ none
    → take_deletion (as' ++ add_key n k nonce ∷ []) ≡ none
unfolding take_deletion
take_deletion-add_key [] n k nonce quiet = refl
take_deletion-add_key (delete _ _ ∷ as') n k nonce quiet = absurd cc
take_deletion-add_key (add_key x y z ∷ as') n k nonce quiet =
    rw (take_deletion-add_key as' n k nonce (nothing_left _ (take_deletion as') quiet)) refl

-- With no deletion scheduled, the host has nothing to carry out.
pub deleted-none : (lib : Crates) (m : Machine) → IsQuiet m → happen lib m deleted ≡ m
unfolding happen carry_out
deleted-none lib m quiet = rw quiet refl

pub option_cases : {A : Type 0} (o : Option A) → (o ≡ none) ⊎ ((a : A) × (o ≡ some a))
option_cases none = inl refl
option_cases (some a) = inr (a, refl)

destroy_or_other : (e : Entry) → (e ≡ Entry.destroy) ⊎ (e ≢ Entry.destroy)
destroy_or_other Entry.destroy = inl refl
destroy_or_other Entry.new = inr (λ h. cc)
destroy_or_other Entry.forward = inr (λ h. cc)
destroy_or_other Entry.calculate_fees_callback = inr (λ h. cc)
destroy_or_other Entry.finish_forward_callback = inr (λ h. cc)

-- A call by an account with a valid name is harmless, or it is the owner's `destroy`.
pub owner_or_not :
    (s : State) (c : Call)
    → IsNamed (called c)
    → IsHarmless s (called c) ⊎ ((c.entry ≡ Entry.destroy) × (c.predecessor ≡ s.owner_id.as_bytes))
owner_or_not s c named = elim (destroy_or_other c.entry) [
  | inr other ↦ inl (inl other)
  | inl destroys ↦ elim (Bool-cases (bytes_eq c.predecessor s.owner_id.as_bytes)) [
    | inl same ↦ inr (destroys, (bytes_eq_iff _ _).0 same)
    | inr differ ↦ inl (inr (named, ground (arith, bytes_eq_iff c.predecessor s.owner_id.as_bytes)))
  ]
]

-- The contract is in place, and no deletion is scheduled.
abbrev pub IsCalm : Crates → State → AccountId → Machine → Type 0
IsCalm lib s self m = IsReady lib s self m × IsQuiet m

module _ {lib : Crates} {s : State} {self : AccountId} where
  resting_invariant : IsInvariant (IsCalm lib s self) (λ _. Unit) (λ _. ⊥)
  resting_invariant = record {
    register = λ k v h. (IsReady-same refl refl h.0, h.1);
    returned = λ n h. (IsReady-same refl refl h.0, h.1);
    scheduled = λ p a h. (IsReady-same refl refl h.0, h.1);
    acted = λ a none_left h. absurd none_left;
  }

module _ {lib : Crates} (doc : IsDocumented lib) {s : State} {self : AccountId} where
  enter-IsCalm :
      (c : Call) (m : Machine)
      → IsHarmless s (called c)
      → m.predecessor ≡ c.predecessor
      → IsCalm lib s self m
      → IsCalm lib s self (enter machine lib c.entry m).1
  unfolding enter
  enter-IsCalm c m harmless by h =
      let loads =
        Upholds-known {P = IsCalm lib s self} {Q = λ o. o ≡ some s} {m = load machine lib} (some s)
          (set_register 0 (state_bytes lib s)) (λ n r. load-ready doc n r.0)
          (λ n r. resting_invariant.register 0 _ r) refl in
      elim (new_or_other c.entry) [
        | inl is_new ↦ rw is_new ((new-Keeps lib s loads).at m h).0
        | inr other ↦ elim harmless [
          | inl no_destroy ↦
              enter_kept resting_invariant lib c.entry m other (λ e a. absurd (no_destroy e)) h
          | inr (named, stranger) ↦ elim (destroy_or_other c.entry) [
            | inr no_destroy ↦
                enter_kept resting_invariant lib c.entry m other (λ e a. absurd (no_destroy e)) h
            | inl destroys ↦ rw destroys (
                let (_, _, actions, _, storage) =
                  destroy-other machine-IsLawful doc m h.0 named by stranger in
                (
                  IsReady-same storage (enter-keeps_storage lib Entry.destroy m (λ e. cc)).1 h.0,
                  ap take_deletion actions ∙ h.1,
                ))
          ]
        ]
      ]

  -- A harmless event leaves a contract in place with no deletion scheduled.
  pub happen-IsCalm :
      (e : Event) (m : Machine)
      → IsHarmless s e
      → IsCalm lib s self m
      → IsCalm lib s self (happen lib m e)
  unfolding happen carry_out
  happen-IsCalm deleted m harmless h = rw (h.1) h
  happen-IsCalm (called c) m harmless h =
      settle_kept (IsCalm lib s self) m (enter machine lib c.entry (receive c m)) h
        (enter-IsCalm c (receive c m) harmless refl (IsReady-same refl refl h.0, h.1))

  -- Harmless events leave a contract in place, with no deletion scheduled.
  pub history-IsCalm :
      (m : Machine) (es : List Event)
      → All (IsHarmless s) es
      → IsCalm lib s self m
      → IsCalm lib s self (history lib m es)
  unfolding history
  history-IsCalm m [] harmless h = h
  history-IsCalm m (e ∷ es) harmless h =
      history-IsCalm (happen lib m e) es harmless.1 (happen-IsCalm e m harmless.0 h)
