-- ===== src/Forwarder/Runtime/Upholds.antt =====
-- Invariants of code that calls the host, with what its value is then: one rule for each way to
-- build code.
use aurora_forwarder_contrac.Base.{
  ◌≡◌, refl, Bool, true, false, Option, none, some, Bytes, if◌then◌else◌, Result, ok, err, ok_or,
  stopped,
}
use aurora_forwarder_contrac.Base.Results.{Outcome}
use aurora_forwarder_contrac.Forwarder.Error.{ContractError}
use aurora_forwarder_contrac.Forwarder.Runtime.Exec.{
  Exec, lift, pure, panic_utf8, ask, call, attempt, run, sdk_unwrap, sdk_expect, or_trap, ◌>>=◌,
}

-- What holds of the value, if there is one.
abbrev pub Gives : {A : Type 0} → (A → Type 0) → Outcome A → Type 0
Gives Q (ok a) = Q a
Gives Q (err p) = Unit

nothing_said : {A : Type 0} (o : Option A) → Gives (λ _. Unit {0}) (ok_or o stopped)
nothing_said (some a) = tt
nothing_said none = tt

-- `m` keeps `P`, whether it returns or panics, and a value that it returns fulfils `Q`.
pub record Upholds {W A : Type 0} (P : W → Type 0) (Q : A → Type 0) (m : Exec W A) : Type 0 where
  pub at : (w : W) → P w → P (m w).1 × Gives Q (m w).0

-- Nothing is said of the value.
abbrev pub Keeps : {W A : Type 0} → (W → Type 0) → Exec W A → Type 0
Keeps P m = Upholds P (λ _. Unit {0}) m

any_value : {A : Type 0} (r : Outcome A) → Gives (λ _. Unit {0}) r
any_value (ok a) = tt
any_value (err p) = tt

module _ {W A : Type 0} {P : W → Type 0} where
  pub Upholds-lift : (r : Outcome A) → Upholds P (λ a. r ≡ ok a) (lift r)
  unfolding lift
  Upholds-lift (ok a) = record { at = λ w h. (h, refl) }
  Upholds-lift (err p) = record { at = λ w h. (h, tt) }

  pub Upholds-pure : (Q : A → Type 0) (a : A) → Q a → Upholds P Q (pure a)
  unfolding pure
  Upholds-pure Q a q = record { at = λ w h. (h, q) }

  pub Keeps-pure : (a : A) → Keeps P (pure a)
  Keeps-pure a = Upholds-pure (λ _. Unit {0}) a tt

  pub Upholds-panic_utf8 : (Q : A → Type 0) (s : Bytes) → Upholds P Q (panic_utf8 s)
  unfolding panic_utf8
  Upholds-panic_utf8 Q s = record { at = λ w h. (h, tt) }

  pub Upholds-sdk_unwrap : (r : Result ContractError A) → Upholds P (λ a. r ≡ ok a) (sdk_unwrap r)
  unfolding sdk_unwrap
  Upholds-sdk_unwrap (ok a) = record { at = λ w h. (h, refl) }
  Upholds-sdk_unwrap (err e) = record { at = λ w h. (h, tt) }

  pub Upholds-sdk_expect : (s : Bytes) (o : Option A) → Upholds P (λ a. o ≡ some a) (sdk_expect s o)
  unfolding sdk_expect
  Upholds-sdk_expect s (some a) = record { at = λ w h. (h, refl) }
  Upholds-sdk_expect s none = record { at = λ w h. (h, tt) }

  pub Upholds-or_trap : (o : Option A) → Upholds P (λ a. o ≡ some a) (or_trap o)
  unfolding or_trap
  Upholds-or_trap (some a) = record { at = λ w h. (h, refl) }
  Upholds-or_trap none = record { at = λ w h. (h, tt) }

  pub Keeps-ask : (f : W → A) → Keeps P (ask f)
  unfolding ask
  Keeps-ask f = record { at = λ w h. (h, tt) }

  pub Keeps-attempt : (f : W → Option A × W) → ((w : W) → P w → P (f w).1) → Keeps P (attempt f)
  unfolding attempt
  Keeps-attempt f keep = record { at = λ w h. (keep w h, nothing_said (f w).0) }

  pub Keeps-call : (f : W → A × W) → ((w : W) → P w → P (f w).1) → Keeps P (call f)
  unfolding call
  Keeps-call f keep = record { at = λ w h. (keep w h, tt) }

  pub Upholds-if :
      {Q : A → Type 0} (b : Bool) {m n : Exec W A}
      → (b ≡ true → Upholds P Q m)
      → (b ≡ false → Upholds P Q n)
      → Upholds P Q (if b then m else n)
  Upholds-if true km kn = km refl
  Upholds-if false km kn = kn refl

  -- A run that is known from every state with `P`.
  pub Upholds-known :
      {Q : A → Type 0} {m : Exec W A} (a : A) (f : W → W)
      → ((w : W) → P w → m w ≡ (ok a, f w))
      → ((w : W) → P w → P (f w))
      → Q a
      → Upholds P Q m
  Upholds-known a f runs keep q = record { at = λ w h. rw (runs w h) (keep w h, q) }

  pub Keeps-of_Upholds : {Q : A → Type 0} {m : Exec W A} → Upholds P Q m → Keeps P m
  Keeps-of_Upholds {m} u = record { at = λ w h. ((u.at w h).0, any_value (m w).0) }

Gives-weaken :
    {A : Type 0} {Q R : A → Type 0} (r : Outcome A) → ((a : A) → Q a → R a) → Gives Q r → Gives R r
Gives-weaken (ok a) f q = f a q
Gives-weaken (err p) f q = tt

pub Upholds-weaken :
    {W A : Type 0} {P : W → Type 0} {Q R : A → Type 0} {m : Exec W A}
    → ((a : A) → Q a → R a)
    → Upholds P Q m
    → Upholds P R m
Upholds-weaken {m = m} f u = record {
  at = λ w h. ((u.at w h).0, Gives-weaken (m w).0 f (u.at w h).1);
}

pub Keeps-run :
    {W : Type 0} {P : W → Type 0} (f : W → W) → ((w : W) → P w → P (f w)) → Keeps P (run f)
unfolding run
Keeps-run f keep = record { at = λ w h. (keep w h, tt) }

module _ {W A B : Type 0} {P : W → Type 0} {Q : A → Type 0} {R : B → Type 0} where
  -- The rest goes on from the value, or is not run.
  rest_of :
      (f : A → Exec W B)
      → ((a : A) → Q a → Upholds P R (f a))
      → (r : Outcome A) (w : W) → P w
      → Gives Q r
      → P ((lift r >>= f) w).1 × Gives R ((lift r >>= f) w).0
  unfolding ◌>>=◌
  rest_of f rest (ok a) w h q = (rest a q).at w h
  rest_of f rest (err p) w h q = (h, tt)

  pub Upholds-bind :
      {m : Exec W A} {f : A → Exec W B}
      → Upholds P Q m
      → ((a : A) → Q a → Upholds P R (f a))
      → Upholds P R (m >>= f)
  unfolding ◌>>=◌
  Upholds-bind {m} {f} first rest = record {
    at = λ w h. let (kept, given) = first.at w h in rest_of f rest (m w).0 (m w).1 kept given;
  }

-- What holds of the value and the host where the code returns.
abbrev pub Returns : {W A : Type 0} → (A → W → Type 0) → Outcome A × W → Type 0
Returns R (ok a, w) = R a w
Returns R (err p, w) = Unit

-- From `P`, the code returns with `R`, if it returns.
pub record Leads {W A : Type 0} (P : W → Type 0) (R : A → W → Type 0) (m : Exec W A) : Type 0 where
  pub at : (w : W) → P w → Returns R (m w)

kept_to_end :
    {W A : Type 0} (P : W → Type 0) (R : A → W → Type 0)
    → ((a : A) (w : W) → P w → R a w)
    → (o : Outcome A × W) → P o.1
    → Returns R o
kept_to_end P R f (ok a, w) p = f a w p
kept_to_end P R f (err _, w) p = tt

-- What was kept to the end.
pub Leads-of_Keeps :
    {W A : Type 0} {P : W → Type 0} {R : A → W → Type 0} {m : Exec W A}
    → Keeps P m
    → ((a : A) (w : W) → P w → R a w)
    → Leads P R m
Leads-of_Keeps {P = P} {R} {m} u f = record { at = λ w h. kept_to_end P R f (m w) (u.at w h).0 }

module _ {W A B : Type 0} {R : A → W → Type 0} (S : B → W → Type 0) where
  rest_from :
      (f : A → Exec W B)
      → ((a : A) → Leads (R a) S (f a))
      → (o : Outcome A × W) → Returns R o
      → Returns S ((lift o.0 >>= f) o.1)
  unfolding ◌>>=◌
  rest_from f rest (ok a, w) r = (rest a).at w r
  rest_from f rest (err p, w) r = tt

  pub Leads-bind :
      {P : W → Type 0} {m : Exec W A} {f : A → Exec W B}
      → Leads P R m
      → ((a : A) → Leads (R a) S (f a))
      → Leads P S (m >>= f)
  unfolding ◌>>=◌
  Leads-bind {m} {f} first rest = record { at = λ w h. rest_from f rest (m w) (first.at w h) }

module _ {W A B : Type 0} {P : W → Type 0} {Q : A → Type 0} {S : B → W → Type 0} where
  goes_on :
      (f : A → Exec W B)
      → ((a : A) → Q a → Leads P S (f a))
      → (o : Outcome A × W) → P o.1
      → Gives Q o.0
      → Returns S ((lift o.0 >>= f) o.1)
  unfolding ◌>>=◌
  goes_on f rest (ok a, w) h q = (rest a q).at w h
  goes_on f rest (err p, w) h q = tt

  -- The first part keeps `P`.
  pub Leads-after :
      {m : Exec W A} {f : A → Exec W B}
      → Upholds P Q m
      → ((a : A) → Q a → Leads P S (f a))
      → Leads P S (m >>= f)
  unfolding ◌>>=◌
  Leads-after {m} {f} first rest = record {
    at = λ w h. goes_on f rest (m w) (first.at w h).0 (first.at w h).1;
  }

pub ruleset upholds_rules = (
  Upholds-lift, Upholds-pure, Upholds-panic_utf8, Upholds-sdk_unwrap, Upholds-sdk_expect,
  Upholds-or_trap, Keeps-ask, Upholds-bind,
)
