-- ===== src/Forwarder/Runtime/Run.antt =====
-- What the runtime's functions do on the machine, where the values they meet are in order.
use native.Mathlib.Nat.{pow-suc}
use aurora_forwarder_contrac.Base.{
  ℕ, ◌/◌, ◌^◌, ◌<◌, ◌≤◌, ◌≡◌, refl, zero, suc, ap, none, some, Bytes, length, take-length, le→leb,
  ◌==◌, ==_iff, bytes_eq, bytes_eq_iff, ◌≢◌, ◌∙◌, Bool, false, lt→ltb, lt→not_leb, trap, stopped,
  ◌-◌, if◌then◌else◌, Result, ok, err, arith,
}
use aurora_forwarder_contrac.Crates.{Crates, IsDocumented, IoError}
use aurora_forwarder_contrac.Forwarder.AccountId.{AccountId}
use aurora_forwarder_contrac.Forwarder.AccountId.Codec.{
  IsAccount, IsAccount-bounds, IsAccount-utf8, new-validate,
}
use aurora_forwarder_contrac.Forwarder.Error.{
  one_yocto_attach_error, private_call_error, borsh_deserialize_error,
}
use aurora_forwarder_contrac.Forwarder.Host.Machine.{
  Machine, machine, set_register, to_le_bytes, result_at,
}
use aurora_forwarder_contrac.Forwarder.Params.{State, state_storage_key, read_state, try_from_slice}
use aurora_forwarder_contrac.Forwarder.Runtime.Exec.{ask, ◌>>=◌, run}
use aurora_forwarder_contrac.Forwarder.Runtime.Io
use aurora_forwarder_contrac.Forwarder.Runtime.Env
use aurora_forwarder_contrac.Forwarder.Runtime.Handler
use aurora_forwarder_contrac.Forwarder.Promise.{successful, failed, not_ready}

pub register_usize-short : (n : ℕ) → n ≤ 256 → Io.register_usize n ≡ n
unfolding Io.register_usize
register_usize-short n h = ground arith

-- A register that holds at most 256 bytes is copied out whole.
pub to_vec-run :
    (r : ℕ) (v : Bytes) (m : Machine)
    → m.registers r ≡ some v
    → length v ≤ 256
    → Io.to_vec machine r m ≡ (ok v, m)
unfolding Io.to_vec Io.len Io.copy_to_slice ◌>>=◌
to_vec-run r v m held short =
    rw (held, register_usize-short (length v) short, le→leb (length v) 256 short)
      (ground (arith, held, take-length v))

-- The name in the context's register, after the host has put a valid one there.
read_account_id-run :
    {lib : Crates} (doc : IsDocumented lib) (id : AccountId) (m : Machine)
    → IsAccount id
    → m.registers 4 ≡ some id.as_bytes
    → Env.read_account_id machine lib m ≡ (ok id, m)
unfolding Env.read_account_id ◌>>=◌
read_account_id-run doc id m valid held = rw (
  to_vec-run 4 id.as_bytes m held (omega (arith, IsAccount-bounds id valid)),
  IsAccount-utf8 id valid,
  new-validate doc id.as_bytes valid,
)

pub current_account_id-run :
    {lib : Crates} (doc : IsDocumented lib) (id : AccountId) (m : Machine)
    → IsAccount id
    → m.current ≡ id.as_bytes
    → Env.current_account_id machine lib m ≡ (ok id, set_register 4 m.current m)
unfolding Env.current_account_id ◌>>=◌ run
current_account_id-run doc id m valid here =
    read_account_id-run doc id (set_register 4 m.current m) valid (ap some here)

pub predecessor_account_id-run :
    {lib : Crates} (doc : IsDocumented lib) (id : AccountId) (m : Machine)
    → IsAccount id
    → m.predecessor ≡ id.as_bytes
    → Env.predecessor_account_id machine lib m ≡ (ok id, set_register 4 m.predecessor m)
unfolding Env.predecessor_account_id ◌>>=◌ run
predecessor_account_id-run doc id m valid here =
    read_account_id-run doc id (set_register 4 m.predecessor m) valid (ap some here)

pub read_input_borsh-run :
    {A : Type 0} (p : Bytes → Result IoError A) (m : Machine) {a : A}
    → length m.input_bytes ≤ 256
    → p m.input_bytes ≡ ok a
    → Io.read_input_borsh machine p m ≡ (ok (ok a), set_register 1 m.input_bytes m)
unfolding Io.read_input_borsh Io.read_input Io.to_value ◌>>=◌ run
read_input_borsh-run p m short parsed =
    rw (to_vec-run 1 m.input_bytes (set_register 1 m.input_bytes m) refl short, parsed)

-- An input that cannot be read is the entry point's to refuse.
pub read_input_borsh-unread :
    {A : Type 0} (p : Bytes → Result IoError A) (m : Machine) {e : IoError}
    → length m.input_bytes ≤ 256
    → p m.input_bytes ≡ err e
    → Io.read_input_borsh machine p m
      ≡ (ok (err borsh_deserialize_error), set_register 1 m.input_bytes m)
unfolding Io.read_input_borsh Io.read_input Io.to_value ◌>>=◌ run
read_input_borsh-unread p m short unread =
    rw (to_vec-run 1 m.input_bytes (set_register 1 m.input_bytes m) refl short, unread)

-- A longer register does not fit the buffer.
to_vec-full :
    (r : ℕ) (v : Bytes) (m : Machine)
    → m.registers r ≡ some v
    → 256 < length v
    → length v < 2 ^ 32
    → Io.to_vec machine r m ≡ (err trap, m)
unfolding Io.to_vec Io.len Io.copy_to_slice Io.register_usize ◌>>=◌
to_vec-full r v m held long addressable = rw (
  held,
  lt→ltb (length v) (2 ^ 64 - 1) (omega arith),
  lt→ltb (length v) (2 ^ 32) addressable,
  lt→not_leb (length v) 256 long,
)

pub read_input_borsh-full :
    {A : Type 0} (p : Bytes → Result IoError A) (m : Machine)
    → 256 < length m.input_bytes
    → length m.input_bytes < 2 ^ 32
    → Io.read_input_borsh machine p m ≡ (err trap, set_register 1 m.input_bytes m)
unfolding Io.read_input_borsh Io.read_input Io.to_value ◌>>=◌ run
read_input_borsh-full p m long addressable =
    rw (to_vec-full 1 m.input_bytes (set_register 1 m.input_bytes m) refl long addressable)

-- A stored value of at most 256 bytes that decodes to a state.
pub load-run :
    (lib : Crates) (m : Machine) (v : Bytes) {s : State}
    → m.storage state_storage_key ≡ some v
    → length v ≤ 256
    → try_from_slice (read_state lib) v ≡ ok s
    → Io.load machine lib m ≡ (ok (some s), set_register 0 v m)
unfolding Io.load Io.read_storage Io.parse ◌>>=◌
load-run lib m v stored short parsed =
    rw (stored) (rw (to_vec-run 0 v (set_register 0 v m) refl short, parsed) refl)

pub load-run_none :
    (lib : Crates) (m : Machine)
    → m.storage state_storage_key ≡ none
    → Io.load machine lib m ≡ (ok none, m)
unfolding Io.load Io.read_storage Io.parse ◌>>=◌
load-run_none lib m absent = rw absent

from_le-to_le : (k n : ℕ) → n < 256 ^ k → Env.from_le_bytes (to_le_bytes k n) ≡ n
from_le-to_le zero n h = omega arith
from_le-to_le (suc k) n h = omega (arith, from_le-to_le k (n / 256), pow-suc 256 k)

pub account_balance-run :
    (m : Machine) → m.balance < 2 ^ 128 → Env.account_balance machine m ≡ (ok m.balance, m)
unfolding Env.account_balance ask
account_balance-run m h = rw (from_le-to_le 16 m.balance h)

pub assert_one_yocto-run :
    (m : Machine)
    → m.deposit < 2 ^ 128
    → Env.assert_one_yocto machine m
      ≡ (ok (if m.deposit == 1 then ok tt else err one_yocto_attach_error), m)
unfolding Env.assert_one_yocto Env.attached_deposit ◌>>=◌
assert_one_yocto-run m h = rw (from_le-to_le 16 m.deposit h)

pub assert_one_yocto-one :
    (m : Machine) → m.deposit ≡ 1 → Env.assert_one_yocto machine m ≡ (ok (ok tt), m)
assert_one_yocto-one m h =
    assert_one_yocto-run m (omega arith)
    ∙ ap (λ (b : Bool). (ok (if b then ok tt else err one_yocto_attach_error), m))
        ((==_iff m.deposit 1).1 h)

pub assert_one_yocto-other :
    (m : Machine)
    → m.deposit < 2 ^ 128
    → m.deposit ≢ 1
    → Env.assert_one_yocto machine m ≡ (ok (err one_yocto_attach_error), m)
assert_one_yocto-other m bounded h =
    assert_one_yocto-run m bounded
    ∙ ap (λ (b : Bool). (ok (if b then ok tt else err one_yocto_attach_error), m)) not_one
  where
    not_one : (m.deposit == 1) ≡ false
    not_one = ground arith

-- The state after both names of the context have been read.
abbrev pub names_read : Machine → Machine
names_read m = set_register 4 m.current (set_register 4 m.predecessor m)

module _ {lib : Crates} (doc : IsDocumented lib) where
  pub assert_private_call-same :
      (self : AccountId) (m : Machine)
      → IsAccount self
      → m.current ≡ self.as_bytes
      → m.predecessor ≡ self.as_bytes
      → Env.assert_private_call machine lib m ≡ (ok (ok tt), names_read m)
  unfolding Env.assert_private_call ◌>>=◌
  assert_private_call-same self m valid here caller = rw (
    predecessor_account_id-run doc self m valid caller,
    current_account_id-run doc self (set_register 4 m.predecessor m) valid here,
    (bytes_eq_iff self.as_bytes self.as_bytes).1 refl,
  )

  pub assert_private_call-other :
      (self caller : AccountId) (m : Machine)
      → IsAccount self
      → m.current ≡ self.as_bytes
      → IsAccount caller
      → m.predecessor ≡ caller.as_bytes
      → caller.as_bytes ≢ self.as_bytes
      → Env.assert_private_call machine lib m ≡ (ok (err private_call_error), names_read m)
  unfolding Env.assert_private_call ◌>>=◌
  assert_private_call-other self caller m valid here caller_valid calls differ =
      let test : bytes_eq caller.as_bytes self.as_bytes ≡ false =
        ground (arith, bytes_eq_iff caller.as_bytes self.as_bytes) in
      rw (
        predecessor_account_id-run doc caller m caller_valid calls,
        current_account_id-run doc self (set_register 4 m.predecessor m) valid here,
        test,
      )

pub promise_result-successful :
    (i : ℕ) (v : Bytes) (m : Machine)
    → result_at m.results i ≡ some (successful v)
    → length v ≤ 256
    → Handler.promise_result machine i m ≡ (ok (some (successful v)), set_register 5 v m)
unfolding Handler.promise_result Handler.outcome_of ◌>>=◌
promise_result-successful i v m found short =
    rw found (rw (to_vec-run 5 v (set_register 5 v m) refl short) refl)

pub promise_result-failed :
    (i : ℕ) (m : Machine)
    → result_at m.results i ≡ some failed
    → Handler.promise_result machine i m ≡ (ok (some failed), m)
unfolding Handler.promise_result Handler.outcome_of ◌>>=◌
promise_result-failed i m found = rw found

pub promise_result-pending :
    (i : ℕ) (m : Machine)
    → result_at m.results i ≡ some not_ready
    → Handler.promise_result machine i m ≡ (ok (some not_ready), m)
unfolding Handler.promise_result Handler.outcome_of ◌>>=◌
promise_result-pending i m found = rw found

pub promise_result-none :
    (i : ℕ) (m : Machine)
    → result_at m.results i ≡ none
    → Handler.promise_result machine i m ≡ (err stopped, m)
unfolding Handler.promise_result Handler.outcome_of ◌>>=◌
promise_result-none i m absent = rw absent

pub promise_result-full :
    (i : ℕ) (v : Bytes) (m : Machine)
    → result_at m.results i ≡ some (successful v)
    → 256 < length v
    → length v < 2 ^ 32
    → Handler.promise_result machine i m ≡ (err trap, set_register 5 v m)
unfolding Handler.promise_result Handler.outcome_of ◌>>=◌
promise_result-full i v m found long addressable =
    rw found (rw (to_vec-full 5 v (set_register 5 v m) refl long addressable) refl)
