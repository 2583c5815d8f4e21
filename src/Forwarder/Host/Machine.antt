-- ===== src/Forwarder/Host/Machine.antt =====
-- What a host shows of itself, and its documented behaviour on that: the functions as NEAR's
-- bindings specification describes them. `machine` is the host that is nothing but this.
use aurora_forwarder_contrac.Base.{
  ℕ, zero, suc, ◌-◌, ◌/◌, ◌%◌, ◌^◌, List, [], ◌∷◌, ◌++◌, Option, none, some, Bytes, bytes_eq,
  length, ◌==◌, if◌then◌else◌,
}
use aurora_forwarder_contrac.Forwarder.Promise.{PromiseResult, successful, failed, not_ready}
use aurora_forwarder_contrac.Forwarder.Host.{Host}

pub data Promise : Type 0 where
  -- account, method, arguments, amount, gas
  call : Bytes → Bytes → Bytes → ℕ → ℕ → Promise
  -- after the promise of that index
  callback : ℕ → Bytes → Bytes → Bytes → ℕ → ℕ → Promise
  joined : List ℕ → Promise
  batch : Bytes → Promise

-- An action of a batch promise, by the promise's index.
pub data Action : Type 0 where
  add_key : ℕ → Bytes → ℕ → Action
  delete : ℕ → Bytes → Action

pub record Machine : Type 0 where
  pub registers : ℕ → Option Bytes
  pub storage : Bytes → Option Bytes
  pub current : Bytes
  pub signer : Bytes
  pub predecessor : Bytes
  pub input_bytes : Bytes
  pub height : ℕ
  pub deposit : ℕ
  pub balance : ℕ
  pub results : List PromiseResult
  pub promises : List Promise
  pub actions : List Action
  pub returned : Option ℕ
  pub output : Option Bytes

abbrev pub update : (ℕ → Option Bytes) → ℕ → Bytes → ℕ → Option Bytes
update f k v j = if k == j then some v else f j

abbrev pub update_key : (Bytes → Option Bytes) → Bytes → Option Bytes → Bytes → Option Bytes
update_key f k v j = if bytes_eq k j then v else f j

abbrev pub set_register : ℕ → Bytes → Machine → Machine
set_register r v m = record m { registers = update m.registers r v }

-- An unused register has no bytes, and the length `u64::MAX`.
abbrev pub register_bytes : Option Bytes → Bytes
register_bytes none = []
register_bytes (some v) = v

abbrev pub register_size : Option Bytes → ℕ
register_size none = 2 ^ 64 - 1
register_size (some v) = length v

-- An old value goes to the register, and whether there is one is the result.
abbrev pub found : Option Bytes → ℕ → Machine → ℕ × Machine
found none r m = (0, m)
found (some v) r m = (1, set_register r v m)

abbrev pub has : Option Bytes → ℕ
has none = 0
has (some _) = 1

abbrev pub set_key : Bytes → Option Bytes → Machine → Machine
set_key k v m = record m { storage = update_key m.storage k v }

-- A new promise gets the next index.
abbrev pub schedule : Promise → Machine → ℕ × Machine
schedule p m = (length m.promises, record m { promises = m.promises ++ p ∷ [] })

abbrev pub act : Action → Machine → Machine
act a m = record m { actions = m.actions ++ a ∷ [] }

abbrev pub result_at : List PromiseResult → ℕ → Option PromiseResult
result_at [] i = none
result_at (x ∷ xs) zero = some x
result_at (x ∷ xs) (suc i) = result_at xs i

-- The host stops a call that asks for a result that is not there.
abbrev pub result_code : Option PromiseResult → ℕ → Machine → Option ℕ × Machine
result_code (some not_ready) r m = (some 0, m)
result_code (some (successful v)) r m = (some 1, set_register r v m)
result_code (some failed) r m = (some 2, m)
result_code none r m = (none, m)

-- `k` bytes of a number, the least significant first.
abbrev pub to_le_bytes : ℕ → ℕ → Bytes
to_le_bytes zero n = []
to_le_bytes (suc k) n = (n % 256) ∷ to_le_bytes k (n / 256)

abbrev pub machine : Host
machine = record {
  World = Machine;
  read_register = λ r m. register_bytes (m.registers r);
  register_len = λ r m. register_size (m.registers r);
  current_account_id = λ r m. set_register r m.current m;
  signer_account_id = λ r m. set_register r m.signer m;
  predecessor_account_id = λ r m. set_register r m.predecessor m;
  input = λ r m. set_register r m.input_bytes m;
  block_index = λ m. m.height;
  account_balance = λ m. to_le_bytes 16 m.balance;
  attached_deposit = λ m. to_le_bytes 16 m.deposit;
  value_return = λ v m. record m { output = some v };
  promise_create = λ a f x d g. schedule (call a f x d g);
  promise_then = λ p a f x d g. schedule (callback p a f x d g);
  promise_and = λ ps. schedule (joined ps);
  promise_batch_create = λ a. schedule (batch a);
  add_key_with_full_access = λ p k n. act (add_key p k n);
  delete_account = λ p b. act (delete p b);
  promise_result = λ i r m. result_code (result_at m.results i) r m;
  promise_return = λ p m. record m { returned = some p };
  storage_write = λ k v r m. found (m.storage k) r (set_key k (some v) m);
  storage_write_register =
      λ k s r m. found (m.storage k) r (set_key k (some (register_bytes (m.registers s))) m);
  storage_read = λ k r m. found (m.storage k) r m;
  storage_remove = λ k r m. found (m.storage k) r (set_key k none m);
  storage_has_key = λ k m. has (m.storage k);
}
