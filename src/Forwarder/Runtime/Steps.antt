-- ===== src/Forwarder/Runtime/Steps.antt =====
-- Rules that follow a run step by step to its end.
use aurora_forwarder_contrac.Base.{
  ℕ, ◌≡◌, refl, ap, ◌∙◌, sym, Option, none, some, List, ◌++◌, [], ◌∷◌, Bytes, length, length-append,
  append_assoc, ◌+◌, Result, ok, err, Panic, utf8, trap,
}
use aurora_forwarder_contrac.Base.Results.{Outcome}
use aurora_forwarder_contrac.Forwarder.Error.{ContractError, message}
use aurora_forwarder_contrac.Forwarder.Host.Machine.{
  Machine, machine, Promise, call, callback, joined, batch, schedule, add_key, delete, act,
}
use aurora_forwarder_contrac.Forwarder.Promise.{
  PromiseCreateArgs, PromiseWithCallbackArgs, add_full_access_key, delete_account,
}
use aurora_forwarder_contrac.Forwarder.AccountId.{AccountId}
use aurora_forwarder_contrac.Forwarder.Runtime.Exec
use aurora_forwarder_contrac.Forwarder.Runtime.Exec.{Exec, lift, ◌>>=◌}
use aurora_forwarder_contrac.Forwarder.Runtime.Handler
use aurora_forwarder_contrac.Forwarder.Runtime.Handler.{PromiseId}

-- The run that ends in `o` ends in a way that `Q` describes.
pub record Ends {W A : Type 0} (Q : Outcome A × W → Type 0) (o : Outcome A × W) : Type 0 where
  pub holds : Q o

module _ {W A B : Type 0} {Q : Outcome B × W → Type 0} where
  -- The first part returns, and the rest goes on from there.
  pub step :
      (m : Exec W A) (f : A → Exec W B) {w : W} {a : A} {w' : W}
      → m w ≡ (ok a, w')
      → Ends Q (f a w')
      → Ends Q ((m >>= f) w)
  unfolding ◌>>=◌
  step m f e rest = rw e rest

  -- The first part panics, and nothing of the rest is run.
  pub stop :
      (m : Exec W A) (f : A → Exec W B) {w : W} {p : Panic} {w' : W}
      → m w ≡ (err p, w')
      → Q (err p, w')
      → Ends Q ((m >>= f) w)
  unfolding ◌>>=◌
  stop m f e q = rw e (record { holds = q })

module _ {W A : Type 0} where
  -- The last call of a run.
  pub last : {Q : Outcome A × W → Type 0} {o o' : Outcome A × W} → o ≡ o' → Q o' → Ends Q o
  last e q = rw e (record { holds = q })

  pub lift-run : {r s : Outcome A} (w : W) → r ≡ s → lift r w ≡ (s, w)
  unfolding lift
  lift-run w e = λ i. (e i, w)

  pub pure-run : (a : A) (w : W) → Exec.pure a w ≡ (ok a, w)
  unfolding Exec.pure
  pure-run a w = refl

  pub panic_utf8-run : (s : Bytes) (w : W) → Exec.panic_utf8 {A = A} s w ≡ (err (utf8 s), w)
  unfolding Exec.panic_utf8
  panic_utf8-run s w = refl

  pub unwrap-run : (a : A) (w : W) → Exec.sdk_unwrap (ok a) w ≡ (ok a, w)
  unfolding Exec.sdk_unwrap
  unwrap-run a w = refl

  pub unwrap_of-run :
      {r : Result ContractError A} {a : A} (w : W) → r ≡ ok a → Exec.sdk_unwrap r w ≡ (ok a, w)
  unfolding Exec.sdk_unwrap
  unwrap_of-run w e = rw e

  pub unwrap_err-run :
      (e : ContractError) (w : W) → Exec.sdk_unwrap {A = A} (err e) w ≡ (err (utf8 (message e)), w)
  unfolding Exec.sdk_unwrap
  unwrap_err-run e w = refl

  pub unwrap_bad-run :
      {r : Result ContractError A} {e : ContractError} (w : W)
      → r ≡ err e
      → Exec.sdk_unwrap r w ≡ (err (utf8 (message e)), w)
  unfolding Exec.sdk_unwrap
  unwrap_bad-run w h = rw h

  pub expect-run : (s : Bytes) (a : A) (w : W) → Exec.sdk_expect s (some a) w ≡ (ok a, w)
  unfolding Exec.sdk_expect
  expect-run s a w = refl

  pub expect_none-run : (s : Bytes) (w : W) → Exec.sdk_expect {A = A} s none w ≡ (err (utf8 s), w)
  unfolding Exec.sdk_expect
  expect_none-run s w = refl

  pub or_trap-run : (a : A) (w : W) → Exec.or_trap (some a) w ≡ (ok a, w)
  unfolding Exec.or_trap
  or_trap-run a w = refl

  pub or_trap-none-run : (w : W) → Exec.or_trap {A = A} none w ≡ (err trap, w)
  unfolding Exec.or_trap
  or_trap-none-run w = refl

-- The promise that a call or a callback schedules.
abbrev pub call_of : PromiseCreateArgs → Promise
call_of a = call a.target_account_id.as_bytes a.method a.args a.attached_balance a.attached_gas

abbrev pub callback_of : ℕ → PromiseCreateArgs → Promise
callback_of p a =
    callback p a.target_account_id.as_bytes a.method a.args a.attached_balance a.attached_gas

-- The id that a new promise gets.
abbrev pub next_id : Machine → PromiseId
next_id m = record { raw = length m.promises }

abbrev pub scheduled : Promise → Machine → Machine
scheduled p m = (schedule p m).1

pub promise_create_call-run :
    (a : PromiseCreateArgs) (m : Machine)
    → Handler.promise_create_call machine a m ≡ (ok (next_id m), scheduled (call_of a) m)
unfolding Handler.promise_create_call ◌>>=◌
promise_create_call-run a m = refl

pub promise_attach_callback-run :
    (p : PromiseId) (a : PromiseCreateArgs) (m : Machine)
    → Handler.promise_attach_callback machine p a m
      ≡ (ok (next_id m), scheduled (callback_of p.raw a) m)
unfolding Handler.promise_attach_callback ◌>>=◌
promise_attach_callback-run p a m = refl

pub promise_create_and_combine-run :
    (a b : PromiseCreateArgs) (m : Machine)
    → let m₁ = scheduled (call_of a) m in
      let m₂ = scheduled (call_of b) m₁ in
      Handler.promise_create_and_combine machine (a ∷ b ∷ []) m
      ≡ (ok (next_id m₂), scheduled (joined (length m.promises ∷ length m₁.promises ∷ [])) m₂)
unfolding Handler.promise_create_and_combine Handler.create_all Handler.promise_create_call ◌>>=◌
promise_create_and_combine-run a b m = refl

pub promise_create_with_callback-run :
    (a : PromiseWithCallbackArgs) (m : Machine)
    → let m₁ = scheduled (call_of a.base) m in
      Handler.promise_create_with_callback machine a m
      ≡ (ok (next_id m₁), scheduled (callback_of (length m.promises) a.callback) m₁)
unfolding Handler.promise_create_with_callback Handler.promise_create_call
    Handler.promise_attach_callback ◌>>=◌
promise_create_with_callback-run a m = refl

pub promise_return-run :
    (p : PromiseId) (m : Machine)
    → Handler.promise_return machine p m ≡ (ok tt, record m { returned = some p.raw })
unfolding Handler.promise_return Exec.run
promise_return-run p m = refl

pub add_key-run :
    (id : AccountId) (k : Bytes) (n : ℕ) (m : Machine)
    → Handler.promise_create_batch machine
        (record { target_account_id = id; actions = add_full_access_key k n ∷ [] })
        m
      ≡ (ok (next_id m), act (add_key (length m.promises) k n) (scheduled (batch id.as_bytes) m))
unfolding Handler.promise_create_batch Handler.append_batch_actions Handler.append_action Exec.run
    ◌>>=◌
add_key-run id k n m = refl

pub delete_account-run :
    (id beneficiary : AccountId) (m : Machine)
    → Handler.promise_create_batch machine
        (record { target_account_id = id; actions = delete_account beneficiary ∷ [] })
        m
      ≡ (
        ok (next_id m),
        act (delete (length m.promises) beneficiary.as_bytes) (scheduled (batch id.as_bytes) m),
      )
unfolding Handler.promise_create_batch Handler.append_batch_actions Handler.append_action Exec.run
    ◌>>=◌
delete_account-run id beneficiary m = refl

-- The ids of promises that were scheduled one after the other.
module _ {A : Type 0} (xs : List A) where
  pub length-append_one : (a : A) → length (xs ++ a ∷ []) ≡ length xs + 1
  length-append_one a = length-append xs (a ∷ [])

  pub length-append_two : (a b : A) → length (xs ++ a ∷ b ∷ []) ≡ length xs + 2
  length-append_two a b = length-append xs (a ∷ b ∷ [])

  pub length-append_three : (a b c : A) → length (xs ++ a ∷ b ∷ c ∷ []) ≡ length xs + 3
  length-append_three a b c = length-append xs (a ∷ b ∷ c ∷ [])

pub ruleset ids = (append_assoc, length-append_one, length-append_two, length-append_three)
