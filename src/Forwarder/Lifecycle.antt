-- ===== src/Forwarder/Lifecycle.antt =====
-- From an empty account to a forwarder in place, whatever calls it gets (forwarder/src/lib.rs).
pub mod New
pub mod History
pub mod Tests
use aurora_forwarder_contrac.Base.{
  ℕ, ◌≡◌, ◌≢◌, ◌≤◌, refl, ◌∙◌, sym, ap, ◌⊎◌, inl, inr, Bool, true, false, leb, Bool-cases, Option,
  none, some, List, [], ◌∷◌, Bytes, length, if◌then◌else◌, Result, ok, err, map_err, trap, arith,
}
use aurora_forwarder_contrac.Base.Results.{Outcome}
use aurora_forwarder_contrac.Crates.{Crates, IsDocumented, IoError}
use aurora_forwarder_contrac.Forwarder.AccountId.{AccountId}
use aurora_forwarder_contrac.Forwarder.AccountId.Codec.{IsAccount, deserialize_reader-IsAccount}
use aurora_forwarder_contrac.Forwarder.Contract.{enter, new, refuse_initialized}
use aurora_forwarder_contrac.Forwarder.Contract.Exports.{Entry}
use aurora_forwarder_contrac.Forwarder.Contract.Spec.{
  IsReady, IsReady-same, load-ready, set_register-IsReady,
}
use aurora_forwarder_contrac.Forwarder.Host.Machine.{Machine, machine, Promise, Action}
use aurora_forwarder_contrac.Forwarder.Invariant.{IsInvariant, IsPolicy}
use aurora_forwarder_contrac.Forwarder.Invariant.Entries.{
  forward-Keeps, calculate_fees_callback-Keeps, finish_forward_callback-Keeps, destroy-Keeps,
  new-Keeps,
}
use aurora_forwarder_contrac.Forwarder.Invariant.Runtime.{load-Keeps, current_account_id-Keeps}
use aurora_forwarder_contrac.Forwarder.Params.{State, state_storage_key}
use aurora_forwarder_contrac.Forwarder.Params.Layout.{IsState, names_length, state_bytes}
use aurora_forwarder_contrac.Forwarder.Runtime.Io
use aurora_forwarder_contrac.Forwarder.Runtime.Upholds.{
  Upholds, Keeps, Upholds-known, Upholds-weaken, Upholds-bind,
}
use aurora_forwarder_contrac.Forwarder.Safety.{Call, receive, settle, calls}

-- `P` is a matter of storage and of the account alone.
pub record IsFrame (P : Machine → Type 0) : Type 0 where
  pub at : (m m' : Machine) → m'.storage ≡ m.storage → m'.current ≡ m.current → P m → P m'

-- Some state, which has no names.
abbrev blank : State
blank = record {
  target_address = record { raw = [] };
  target_network = record { as_bytes = [] };
  wnear_contract_id = record { as_bytes = [] };
  fees_contract_id = record { as_bytes = [] };
  owner_id = record { as_bytes = [] };
}

module _ {P : Machine → Type 0} {AllowedAction : Action → Type 0}
    (inv : IsInvariant P (λ _. Unit) AllowedAction) where
  free_policy : (lib : Crates) → IsPolicy lib P (λ _. Unit) AllowedAction (λ _. Unit) (λ _. Unit)
  free_policy lib = record {
    invariant = inv;
    allows = λ good here a. tt;
    loads = Upholds-weaken (λ o _ s e. tt) (load-Keeps inv lib);
    runs_on = current_account_id-Keeps inv lib;
    state = blank;
    is_good = tt;
    self = blank.owner_id;
    is_here = tt;
  }

  -- What promises and the actions of `destroy` leave true stays true in each entry point but `new`.
  pub enter_kept :
      (lib : Crates) (e : Entry) (m : Machine)
      → e ≢ Entry.new
      → (e ≡ Entry.destroy → (a : Action) → AllowedAction a)
      → P m
      → P (enter machine lib e m).1
  unfolding enter
  enter_kept lib Entry.new m other acts h = absurd (other refl)
  enter_kept lib Entry.forward m other acts h = ((forward-Keeps (free_policy lib)).at m h).0
  enter_kept lib Entry.calculate_fees_callback m other acts h =
      ((calculate_fees_callback-Keeps (free_policy lib)).at m h).0
  enter_kept lib Entry.finish_forward_callback m other acts h =
      ((finish_forward_callback-Keeps (free_policy lib)).at m h).0
  enter_kept lib Entry.destroy m other acts h =
      ((destroy-Keeps (free_policy lib) (λ _ a good allowed. acts refl a)).at m h).0

module _ {P : Machine → Type 0} (frame : IsFrame P) where
  pub frame_invariant : IsInvariant P (λ _. Unit) (λ _. Unit)
  frame_invariant = record {
    register = λ k v h. frame.at _ _ refl refl h;
    returned = λ n h. frame.at _ _ refl refl h;
    scheduled = λ p a h. frame.at _ _ refl refl h;
    acted = λ a b h. frame.at _ _ refl refl h;
  }

  pub enter-frame :
      (lib : Crates) (e : Entry) (m : Machine) → e ≢ Entry.new → P m → P (enter machine lib e m).1
  enter-frame lib e m other h = enter_kept frame_invariant lib e m other (λ _ a. tt) h

-- No entry point but `new` changes the storage or the account, whatever the state of the contract,
-- the caller, the input and the promise results are, and also where it panics.
pub enter-keeps_storage :
    (lib : Crates) (e : Entry) (m : Machine)
    → e ≢ Entry.new
    → ((enter machine lib e m).1.storage ≡ m.storage)
      × ((enter machine lib e m).1.current ≡ m.current)
enter-keeps_storage lib e m other =
    enter-frame {P = λ m'. (m'.storage ≡ m.storage) × (m'.current ≡ m.current)}
      (record { at = λ n n' same here h. (same ∙ h.0, here ∙ h.1) }) lib e m other (refl, refl)
