-- ===== src/Forwarder/Chain/Until.antt =====
-- What holds of a forwarder until the host carries out a deletion (forwarder/src/lib.rs).
use aurora_forwarder_contrac.Base.{◌≡◌, refl, ap, ◌⊎◌, inl, inr, some, List, [], ◌∷◌, ◌++◌, All}
use aurora_forwarder_contrac.Crates.{Crates, IsDocumented}
use aurora_forwarder_contrac.Forwarder.AccountId.{AccountId}
use aurora_forwarder_contrac.Forwarder.Contract.Spec.{IsReady}
use aurora_forwarder_contrac.Forwarder.Host.Machine.{Machine, Action}
use aurora_forwarder_contrac.Forwarder.Params.{State}
use aurora_forwarder_contrac.Forwarder.Safety.{Call}
use aurora_forwarder_contrac.Forwarder.Chain.{
  Event, called, deleted, take_deletion, happen, history, IsQuiet, IsNamed, IsHarmless,
  IsDestroyedBy, here, there,
}
use aurora_forwarder_contrac.Forwarder.Chain.Quiet.{
  owner_or_not, happen-IsCalm, deleted-none, option_cases,
}

-- The host carried out a deletion behind the events `before`. Up to there `Kept` held of the
-- account, and the events gave the cause.
pub record IsDeleted (lib : Crates) (Kept : Machine → Type 0) (Cause : List Event → Type 0)
    (m : Machine) (es : List Event) : Type 0 where
  pub before : List Event
  pub behind : List Event
  pub split : es ≡ before ++ deleted ∷ behind
  pub kept : Kept (history lib m before)
  pub left : List Action
  pub scheduled : take_deletion (history lib m before).actions ≡ some left
  pub cause : Cause before

-- The owner has called `destroy`, or there is the cause `P` from before.
abbrev pub IsDestroyedOr : State → Type 0 → List Event → Type 0
IsDestroyedOr s P before = IsDestroyedBy s.owner_id.as_bytes before ⊎ P

one_later :
    (s : State) (P : Type 0) (e : Event) (before : List Event)
    → IsDestroyedOr s P before
    → IsDestroyedOr s P (e ∷ before)
one_later s P e before (inl d) = inl (there e before d)
one_later s P e before (inr p) = inr p

-- The next event, by what is to be shown of the rest from the state behind it.
later :
    (lib : Crates) {Kept : Machine → Type 0} {Cause Later : List Event → Type 0} (e : Event)
    (m : Machine) (es : List Event)
    → ((before : List Event) → Later before → Cause (e ∷ before))
    → Kept (history lib (happen lib m e) es) ⊎ IsDeleted lib Kept Later (happen lib m e) es
    → Kept (history lib m (e ∷ es)) ⊎ IsDeleted lib Kept Cause m (e ∷ es)
unfolding history
later lib e m es f (inl kept) = inl kept
later lib e m es f (inr d) = inr (record {
  before = e ∷ d.before;
  behind = d.behind;
  split = ap (λ (l : List Event). e ∷ l) d.split;
  kept = d.kept;
  left = d.left;
  scheduled = d.scheduled;
  cause = f d.before d.cause;
})

-- Where a deletion has been scheduled, it is carried out.
deletion_now :
    (lib : Crates) (s : State) (P : Type 0) (Kept : Machine → Type 0) (m : Machine)
    (es : List Event) {left : List Action}
    → Kept m
    → IsQuiet m ⊎ P
    → take_deletion m.actions ≡ some left
    → IsDeleted lib Kept (IsDestroyedOr s P) m (deleted ∷ es)
unfolding history
deletion_now lib s P Kept m es {left} kept quiet scheduled = record {
  before = [];
  behind = es;
  split = refl;
  kept = kept;
  left = left;
  scheduled = scheduled;
  cause = elim quiet [ inl none_left ↦ absurd cc | inr p ↦ inr p ];
}

-- What calls keep of a contract in place is kept until a deletion is carried out.
module _ {lib : Crates} (doc : IsDocumented lib) {s : State} {self : AccountId}
    (Kept : Machine → Type 0) (is_ready : (m : Machine) → Kept m → IsReady lib s self m)
    (keeps : (c : Call) (m : Machine) → Kept m → Kept (happen lib m (called c))) where
  called-IsQuiet :
      (P : Type 0) (c : Call) (m : Machine)
      → IsHarmless s (called c)
      → Kept m
      → IsQuiet m ⊎ P
      → IsQuiet (happen lib m (called c)) ⊎ P
  called-IsQuiet P c m harmless kept (inl quiet) =
      inl (happen-IsCalm doc (called c) m harmless (is_ready m kept, quiet)).1
  called-IsQuiet P c m harmless kept (inr p) = inr p

  pub holds_until :
      (P : Type 0) (m : Machine) (es : List Event)
      → Kept m
      → IsQuiet m ⊎ P
      → All IsNamed es
      → Kept (history lib m es) ⊎ IsDeleted lib Kept (IsDestroyedOr s P) m es
  unfolding history
  holds_until P m [] kept quiet named = inl kept
  holds_until P m (called c ∷ es) kept quiet named =
      let m' = happen lib m (called c) in
      elim (owner_or_not s c named.0) [
        | inl harmless ↦ later lib (called c) m es (one_later s P (called c)) (
            holds_until P m' es (keeps c m kept) (called-IsQuiet P c m harmless kept quiet) named.1)
        | inr (destroys, owns) ↦
            later lib {Later = IsDestroyedOr s (Unit {0})} (called c) m es
              (λ before _. inl (here c before destroys owns))
              (holds_until (Unit {0}) m' es (keeps c m kept) (inr tt) named.1)
      ]
  holds_until P m (deleted ∷ es) kept quiet named = elim (option_cases (take_deletion m.actions)) [
    | inl none_left ↦
        later lib deleted m es (one_later s P deleted)
          (rw (deleted-none lib m none_left) (holds_until P m es kept quiet named.1))
    | inr (left, scheduled) ↦ inr (deletion_now lib s P Kept m es kept quiet scheduled)
  ]

  -- The same, where no deletion is scheduled at the start.
  pub kept_until :
      (m : Machine) (es : List Event)
      → Kept m
      → IsQuiet m
      → All IsNamed es
      → Kept (history lib m es) ⊎ IsDeleted lib Kept (IsDestroyedBy s.owner_id.as_bytes) m es
  kept_until m es kept quiet named = elim (holds_until ⊥ m es kept (inl quiet) named) [
    | inl kept_on ↦ inl kept_on
    | inr d ↦ inr (record {
      before = d.before;
      behind = d.behind;
      split = d.split;
      kept = d.kept;
      left = d.left;
      scheduled = d.scheduled;
      cause = elim d.cause [ inl by_owner ↦ by_owner | inr none_left ↦ absurd none_left ];
    })
  ]
