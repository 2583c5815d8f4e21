-- ===== src/Forwarder/Runtime/Exec.antt =====
-- Code that calls the host: it changes the host's state, and ends with a value or a panic. After a
-- panic the host drops the changes; the state here is the one at that point.
use aurora_forwarder_contrac.Base.{
  Option, none, some, Bytes, Result, ok, err, ok_or, utf8, trap, stopped,
}
use aurora_forwarder_contrac.Base.Results.{Outcome}
use aurora_forwarder_contrac.Forwarder.Error.{ContractError, message}

abbrev pub Exec {ℓ} : Type ℓ → Type ℓ → Type ℓ
Exec W A = W → Outcome A × W

module _ {ℓ} {W A : Type ℓ} where
  unfoldable pub lift : Outcome A → Exec W A
  lift r w = (r, w)

  unfoldable pub pure : A → Exec W A
  pure a w = (ok a, w)

  -- `panic_utf8`
  unfoldable pub panic_utf8 : Bytes → Exec W A
  panic_utf8 s w = (err (utf8 s), w)

  -- A host call that answers from the state.
  unfoldable pub ask : (W → A) → Exec W A
  ask f w = (ok (f w), w)

  -- A host call that changes the state.
  unfoldable pub call : (W → A × W) → Exec W A
  call f w = let (a, w') = f w in (ok a, w')

  -- A host call that may stop the call of the contract.
  unfoldable pub attempt : (W → Option A × W) → Exec W A
  attempt f w = let (o, w') = f w in (ok_or o stopped, w')

  -- `sdk_unwrap`
  unfoldable pub sdk_unwrap : Result ContractError A → Exec W A
  sdk_unwrap (ok a) w = (ok a, w)
  sdk_unwrap (err e) w = (err (utf8 (message e)), w)

  -- `sdk_expect`
  unfoldable pub sdk_expect : Bytes → Option A → Exec W A
  sdk_expect msg (some a) w = (ok a, w)
  sdk_expect msg none w = (err (utf8 msg), w)

  -- `unwrap` and `expect` of the core library, whose message is lost in the panic handler
  unfoldable pub or_trap : Option A → Exec W A
  or_trap (some a) w = (ok a, w)
  or_trap none w = (err trap, w)

module _ {ℓ} {W A B : Type ℓ} where
  abbrev continue : Outcome A → (A → Exec W B) → Exec W B
  continue (ok a) f w = f a w
  continue (err p) f w = (err p, w)

  infixl 5 ◌>>=◌ ◌>>◌
  unfoldable pub ◌>>=◌ : Exec W A → (A → Exec W B) → Exec W B
  unfolding lift pure panic_utf8 ask call attempt sdk_unwrap sdk_expect or_trap
  ◌>>=◌ m f w = let (r, w') = m w in continue r f w'

  abbrev pub ◌>>◌ : Exec W A → Exec W B → Exec W B
  m >> n = m >>= λ _. n

-- A host call with no answer.
unfoldable pub run : {W : Type 0} → (W → W) → Exec W (Unit {0})
run f w = (ok tt, f w)
