-- ===== src/Forwarder/Runtime/Io.antt =====
-- forwarder/src/runtime/mod.rs and io.rs: registers, input and storage.
use aurora_forwarder_contrac.Base.{
  ℕ, ◌-◌, ◌^◌, Bool, Option, none, some, Bytes, take, ltb, leb, ◌==◌, if◌then◌else◌, Result, ok,
  err, map_err, to_option, trap,
}
use aurora_forwarder_contrac.Crates.{Crates, IoError}
use aurora_forwarder_contrac.Forwarder.Error.{ContractError, borsh_deserialize_error}
use aurora_forwarder_contrac.Forwarder.Borsh.{to_borsh, vec_capacity}
use aurora_forwarder_contrac.Forwarder.Params.{
  State, state_storage_key, write_state, read_state, try_from_slice,
}
use aurora_forwarder_contrac.Forwarder.Host.{Host}
use aurora_forwarder_contrac.Forwarder.Runtime.Exec.{Exec, lift, pure, ask, call, run, ◌>>=◌, ◌>>◌}

abbrev pub read_storage_register_id : ℕ
read_storage_register_id = 0

abbrev pub input_register_id : ℕ
input_register_id = 1

abbrev pub write_register_id : ℕ
write_register_id = 2

abbrev pub evict_register_id : ℕ
evict_register_id = 3

abbrev pub env_register_id : ℕ
env_register_id = 4

abbrev pub promise_register_id : ℕ
promise_register_id = 5

-- `usize::try_from(result).unwrap_or_default()` on a target of 32 bits; `u64::MAX` stands for an
-- unused register.
unfoldable pub register_usize : ℕ → ℕ
register_usize result =
    if ltb result (2 ^ 64 - 1) then (if ltb result (2 ^ 32) then result else 0) else 0

-- `Some(register)` if the host answered 1.
abbrev pub when_one : ℕ → ℕ → Option ℕ
when_one register answer = if answer == 1 then some register else none

module _ (h : Host) where
  open h use {World}

  -- `len`
  unfoldable pub len : ℕ → Exec World ℕ
  len register = ask (λ w. register_usize (h.register_len register w))

  -- `copy_to_slice` into a buffer of `n` bytes
  unfoldable pub copy_to_slice : ℕ → ℕ → Exec World Bytes
  copy_to_slice n register = ask (λ w. take n (h.read_register register w))

  -- `to_vec`: the buffer has 256 bytes.
  unfoldable pub to_vec : ℕ → Exec World Bytes
  to_vec register = do
    n ← len register
    lift (if leb n vec_capacity then ok tt else err trap)
    copy_to_slice n register

  unfoldable pub to_value :
      {A : Type 0} → (Bytes → Result IoError A) → ℕ → Exec World (Result ContractError A)
  to_value from_slice register = do
    bytes ← to_vec register
    pure (map_err (λ _. borsh_deserialize_error) (from_slice bytes))

  unfoldable pub read_input : Exec World ℕ
  read_input = do run (h.input input_register_id); pure input_register_id

  unfoldable pub return_output : Bytes → Exec World (Unit {0})
  return_output value = run (h.value_return value)

  unfoldable pub read_storage : Bytes → Exec World (Option ℕ)
  read_storage key = do
    answer ← call (h.storage_read key read_storage_register_id)
    pure (when_one read_storage_register_id answer)

  unfoldable pub storage_has_key : Bytes → Exec World Bool
  storage_has_key key = ask (λ w. h.storage_has_key key w == 1)

  unfoldable pub write_storage : Bytes → Bytes → Exec World (Option ℕ)
  write_storage key value = do
    answer ← call (h.storage_write key value write_register_id)
    pure (when_one write_register_id answer)

  unfoldable pub write_storage_direct : Bytes → ℕ → Exec World (Option ℕ)
  write_storage_direct key value = do
    answer ← call (h.storage_write_register key value write_register_id)
    pure (when_one write_register_id answer)

  unfoldable pub remove_storage : Bytes → Exec World (Option ℕ)
  remove_storage key = do
    answer ← call (h.storage_remove key evict_register_id)
    pure (when_one evict_register_id answer)

  unfoldable pub size_of : Option ℕ → Exec World (Option ℕ)
  size_of none = pure none
  size_of (some register) = do n ← len register; pure (some n)

  unfoldable pub read_storage_len : Bytes → Exec World (Option ℕ)
  read_storage_len key = do value ← read_storage key; size_of value

  unfoldable pub read_input_borsh :
      {A : Type 0} → (Bytes → Result IoError A) → Exec World (Result ContractError A)
  read_input_borsh from_slice = do register ← read_input; to_value from_slice register

  unfoldable pub read_input_and_store : Bytes → Exec World (Unit {0})
  read_input_and_store key = do value ← read_input; write_storage_direct key value; pure tt

  -- `to_borsh(&value).ok()?`, then the write
  unfoldable pub store : Bytes → Result ContractError Bytes → Exec World (Option ℕ)
  store key (ok bytes) = write_storage key bytes
  store key (err _) = pure none

  unfoldable pub write_borsh : Bytes → Result IoError Bytes → Exec World (Option ℕ)
  write_borsh key value = do bytes ← lift (to_borsh value); store key bytes

  module _ (lib : Crates) where
    -- `State::save`
    unfoldable pub save : State → Exec World (Unit {0})
    save state = do write_borsh state_storage_key (write_state lib state); pure tt

    unfoldable pub parse : Option ℕ → Exec World (Option State)
    parse none = pure none
    parse (some register) = do
      bytes ← to_vec register
      pure (to_option (try_from_slice (read_state lib) bytes))

    -- `State::load`
    unfoldable pub load : Exec World (Option State)
    load = do register ← read_storage state_storage_key; parse register
