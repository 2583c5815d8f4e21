-- ===== src/Forwarder/Runtime/Sim.antt =====
-- The relation between code over a lawful host and over the machine: one rule for each way to build
-- code.
pub mod Calls
use aurora_forwarder_contrac.Base.{
  ℕ, ◌≡◌, refl, ap, ◌∙◌, Bool, true, false, Option, none, some, Bytes, if◌then◌else◌, Result, ok,
  err, ok_or, Panic, stopped,
}
use aurora_forwarder_contrac.Base.Results.{Outcome}
use aurora_forwarder_contrac.Forwarder.Error.{ContractError}
use aurora_forwarder_contrac.Forwarder.Host.Lawful.{seen}
use aurora_forwarder_contrac.Forwarder.Runtime.Exec.{
  Exec, lift, pure, panic_utf8, ask, call, attempt, run, sdk_unwrap, sdk_expect, or_trap, ◌>>=◌,
}

-- `m` on a state ends as `n` does on what is seen of the state.
pub record Sim {W V A : Type 0} (view : W → V) (m : Exec W A) (n : Exec V A) : Type 0 where
  pub at : (w : W) → seen view (m w) ≡ n (view w)

module _ {W V A : Type 0} {view : W → V} where
  pub Sim-lift : (r : Outcome A) → Sim view (lift r) (lift r)
  unfolding lift
  Sim-lift r = record { at = λ w. refl }

  pub Sim-pure : (a : A) → Sim view (pure a) (pure a)
  unfolding pure
  Sim-pure a = record { at = λ w. refl }

  pub Sim-panic_utf8 : (s : Bytes) → Sim {A = A} view (panic_utf8 s) (panic_utf8 s)
  unfolding panic_utf8
  Sim-panic_utf8 s = record { at = λ w. refl }

  pub Sim-sdk_unwrap : (r : Result ContractError A) → Sim view (sdk_unwrap r) (sdk_unwrap r)
  unfolding sdk_unwrap
  Sim-sdk_unwrap (ok a) = record { at = λ w. refl }
  Sim-sdk_unwrap (err e) = record { at = λ w. refl }

  pub Sim-sdk_expect : (s : Bytes) (o : Option A) → Sim view (sdk_expect s o) (sdk_expect s o)
  unfolding sdk_expect
  Sim-sdk_expect s (some a) = record { at = λ w. refl }
  Sim-sdk_expect s none = record { at = λ w. refl }

  pub Sim-or_trap : (o : Option A) → Sim view (or_trap o) (or_trap o)
  unfolding or_trap
  Sim-or_trap (some a) = record { at = λ w. refl }
  Sim-or_trap none = record { at = λ w. refl }

  pub Sim-ask : (f : W → A) (g : V → A) → ((w : W) → f w ≡ g (view w)) → Sim view (ask f) (ask g)
  unfolding ask
  Sim-ask f g same = record { at = λ w i. (ok (same w i), view w) }

  pub Sim-attempt :
      (f : W → Option A × W) (g : V → Option A × V)
      → ((w : W) → seen view (f w) ≡ g (view w))
      → Sim view (attempt f) (attempt g)
  unfolding attempt
  Sim-attempt f g same = record { at = λ w i. (ok_or (same w i).0 stopped, (same w i).1) }

  pub Sim-call :
      (f : W → A × W) (g : V → A × V)
      → ((w : W) → seen view (f w) ≡ g (view w))
      → Sim view (call f) (call g)
  unfolding call
  Sim-call f g same = record { at = λ w. ap (λ (p : A × V). let (a, v) = p in (ok a, v)) (same w) }

  pub Sim-if :
      (b : Bool) {m m' : Exec W A} {n n' : Exec V A}
      → Sim view m n
      → Sim view m' n'
      → Sim view (if b then m else m') (if b then n else n')
  Sim-if true s t = s
  Sim-if false s t = t

pub Sim-run :
    {W V : Type 0} {view : W → V} (f : W → W) (g : V → V)
    → ((w : W) → view (f w) ≡ g (view w))
    → Sim view (run f) (run g)
unfolding run
Sim-run f g same = record { at = λ w i. (ok tt, same w i) }

module _ {W V A B : Type 0} {view : W → V} where
  -- Both sides go on from the same outcome.
  after :
      {f : A → Exec W B} {g : A → Exec V B}
      → ((a : A) → Sim view (f a) (g a))
      → (r : Outcome A) (w : W) → seen view ((lift r >>= f) w) ≡ (lift r >>= g) (view w)
  unfolding ◌>>=◌
  after rest (ok a) w = (rest a).at w
  after rest (err p) w = refl

  pub Sim-bind :
      {m : Exec W A} {n : Exec V A} {f : A → Exec W B} {g : A → Exec V B}
      → Sim view m n
      → ((a : A) → Sim view (f a) (g a))
      → Sim view (m >>= f) (n >>= g)
  unfolding ◌>>=◌
  Sim-bind {m} {n} {f} {g} first rest = record {
    at = λ w.
        after rest (m w).0 (m w).1 ∙ ap (λ (p : Outcome A × V). (lift p.0 >>= g) p.1) (first.at w);
  }

pub ruleset sim_rules = (
  Sim-lift, Sim-pure, Sim-panic_utf8, Sim-sdk_unwrap, Sim-sdk_expect, Sim-or_trap, Sim-if, Sim-bind,
)
