-- ===== src/Forwarder/Safety/Runtime.antt =====
-- Being in place with nothing but allowed promises is an invariant of the host.
use aurora_forwarder_contrac.Base.{ℕ, ◌≡◌, refl, Option, some, [], ◌∷◌, Bytes, All-append}
use aurora_forwarder_contrac.Crates.{Crates, IsDocumented}
use aurora_forwarder_contrac.Forwarder.AccountId.{AccountId}
use aurora_forwarder_contrac.Forwarder.Contract.Spec.{
  IsReady-same, load-ready, set_register-IsReady,
}
use aurora_forwarder_contrac.Forwarder.Host.Machine.{
  Machine, machine, Promise, Action, act, set_register,
}
use aurora_forwarder_contrac.Forwarder.Params.{State}
use aurora_forwarder_contrac.Forwarder.Params.Layout.{state_bytes}
use aurora_forwarder_contrac.Forwarder.Runtime.Env
use aurora_forwarder_contrac.Forwarder.Runtime.Io
use aurora_forwarder_contrac.Forwarder.Runtime.Run.{current_account_id-run}
use aurora_forwarder_contrac.Forwarder.Runtime.Steps.{scheduled}
use aurora_forwarder_contrac.Forwarder.Runtime.Upholds.{Upholds, Upholds-known, Upholds-weaken}
use aurora_forwarder_contrac.Forwarder.Safety.{IsSafe, IsAllowed, IsAllowedAction}
use aurora_forwarder_contrac.Forwarder.Invariant.{IsPolicy}

-- What is unwrapped is what was loaded.
loaded : {s state : State} {o : Option State} → o ≡ some s → o ≡ some state → state ≡ s
loaded e f = cc

module _ {lib : Crates} {s : State} {self : AccountId} where
  -- Registers are no part of it.
  set_register-IsSafe :
      (k : ℕ) (v : Bytes) {m : Machine}
      → IsSafe lib s self m
      → IsSafe lib s self (set_register k v m)
  set_register-IsSafe k v h = record {
    ready = set_register-IsReady k v h.ready;
    promises = h.promises;
    actions = h.actions;
  }

  scheduled-IsSafe :
      (p : Promise) {m : Machine}
      → IsAllowed lib s self p
      → IsSafe lib s self m
      → IsSafe lib s self (scheduled p m)
  scheduled-IsSafe p {m} a h = record {
    ready = IsReady-same refl refl h.ready;
    promises = All-append (IsAllowed lib s self) m.promises (p ∷ []) h.promises (a, tt);
    actions = h.actions;
  }

  act-IsSafe :
      (a : Action) {m : Machine}
      → IsAllowedAction s a
      → IsSafe lib s self m
      → IsSafe lib s self (act a m)
  act-IsSafe a {m} allowed h = record {
    ready = IsReady-same refl refl h.ready;
    promises = h.promises;
    actions = All-append (IsAllowedAction s) m.actions (a ∷ []) h.actions (allowed, tt);
  }

  returned-IsSafe :
      (n : ℕ) {m : Machine}
      → IsSafe lib s self m
      → IsSafe lib s self (record m { returned = some n })
  returned-IsSafe n h = record {
    ready = IsReady-same refl refl h.ready;
    promises = h.promises;
    actions = h.actions;
  }

  module _ (doc : IsDocumented lib) where
    pub load-Upholds : Upholds (IsSafe lib s self) (λ o. o ≡ some s) (Io.load machine lib)
    load-Upholds =
        Upholds-known (some s) (set_register 0 (state_bytes lib s))
          (λ m h. load-ready doc m h.ready) (λ m h. set_register-IsSafe 0 _ h) refl

    current_account_id-Upholds :
        Upholds (IsSafe lib s self) (λ id. id ≡ self) (Env.current_account_id machine lib)
    current_account_id-Upholds =
        Upholds-known self (λ m. set_register 4 m.current m)
          (λ m h. current_account_id-run doc self m h.ready.valid h.ready.here)
          (λ m h. set_register-IsSafe 4 _ h) refl

    pub policy_of_state :
        IsPolicy lib
          (IsSafe lib s self)
          (IsAllowed lib s self)
          (IsAllowedAction s)
          (λ t. t ≡ s)
          (λ id. id ≡ self)
    policy_of_state = record {
      invariant = record {
        register = λ k v h. set_register-IsSafe k v h;
        returned = λ n h. returned-IsSafe n h;
        scheduled = λ p a h. scheduled-IsSafe p a h;
        acted = λ a allowed h. act-IsSafe a allowed h;
      };
      allows = λ {s = t} {self = id} {p} good here a. rw (good, here) at a;
      loads = Upholds-weaken (λ o is_stored t is_state. loaded is_stored is_state) load-Upholds;
      runs_on = current_account_id-Upholds;
      state = s;
      is_good = refl;
      self = self;
      is_here = refl;
    }
