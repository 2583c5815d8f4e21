-- ===== src/Forwarder/Invariant.antt =====
-- What holds of the host all along a call of the forwarder (forwarder/src/lib.rs): the ways in which the
-- entry points other than `new` may touch the host.
pub mod Runtime
pub mod Entries
use aurora_forwarder_contrac.Base.{ℕ, some, ◌≡◌, Bytes}
use aurora_forwarder_contrac.Crates.{Crates}
use aurora_forwarder_contrac.Forwarder.AccountId.{AccountId}
use aurora_forwarder_contrac.Forwarder.Host.Machine.{
  Machine, machine, Promise, Action, act, set_register,
}
use aurora_forwarder_contrac.Forwarder.Params.{State}
use aurora_forwarder_contrac.Forwarder.Runtime.Env.{current_account_id}
use aurora_forwarder_contrac.Forwarder.Runtime.Io.{load}
use aurora_forwarder_contrac.Forwarder.Runtime.Steps.{scheduled}
use aurora_forwarder_contrac.Forwarder.Runtime.Upholds.{Upholds}
use aurora_forwarder_contrac.Forwarder.Safety.{IsAllowed}

-- Registers and the promise returned are no part of `P`, and allowed promises and actions leave it
-- true.
pub record IsInvariant (P : Machine → Type 0) (Allowed : Promise → Type 0)
    (AllowedAction : Action → Type 0) : Type 0 where
  pub register : (k : ℕ) (v : Bytes) {m : Machine} → P m → P (set_register k v m)
  pub returned : (n : ℕ) {m : Machine} → P m → P (record m { returned = some n })
  pub scheduled : (p : Promise) {m : Machine} → Allowed p → P m → P (scheduled p m)
  pub acted : (a : Action) {m : Machine} → AllowedAction a → P m → P (act a m)

-- Besides, what is loaded is a good state and the account is a good one, and all that a forwarder
-- with a good state on a good account schedules is allowed.
pub record IsPolicy (lib : Crates) (P : Machine → Type 0) (Allowed : Promise → Type 0)
    (AllowedAction : Action → Type 0) (Good : State → Type 0) (Here : AccountId → Type 0)
    : Type 0 where
  pub invariant : IsInvariant P Allowed AllowedAction
  pub allows :
      {s : State} {self : AccountId} {p : Promise}
      → Good s
      → Here self
      → IsAllowed lib s self p
      → Allowed p
  pub loads : Upholds P (λ o. (s : State) → o ≡ some s → Good s) (load machine lib)
  pub runs_on : Upholds P Here (current_account_id machine lib)
  pub state : State
  pub is_good : Good state
  pub self : AccountId
  pub is_here : Here self
