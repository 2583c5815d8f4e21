-- ===== src/Forwarder/Runtime/Env.antt =====
-- forwarder/src/runtime/env.rs: the context of a call.
use aurora_forwarder_contrac.Base.{
  ℕ, ◌+◌, ◌*◌, [], ◌∷◌, Bytes, ◌==◌, if◌then◌else◌, Result, ok, err, trap, is_utf8,
}
use aurora_forwarder_contrac.Crates.{Crates}
use aurora_forwarder_contrac.Forwarder.AccountId
use aurora_forwarder_contrac.Forwarder.AccountId.{AccountId, account_eq}
use aurora_forwarder_contrac.Forwarder.Error.{
  ContractError, private_call_error, one_yocto_attach_error,
}
use aurora_forwarder_contrac.Forwarder.Host.{Host}
use aurora_forwarder_contrac.Forwarder.Runtime.Exec.{Exec, lift, pure, ask, run, ◌>>=◌, ◌>>◌}
use aurora_forwarder_contrac.Forwarder.Runtime.Io.{to_vec, env_register_id}

-- `u128::from_le_bytes`
abbrev pub from_le_bytes : Bytes → ℕ
from_le_bytes [] = 0
from_le_bytes (b ∷ s) = b + 256 * from_le_bytes s

-- `unwrap_or_default`
abbrev pub or_default : Result ContractError AccountId → AccountId
or_default (ok id) = id
or_default (err _) = AccountId.default

module _ (h : Host) where
  open h use {World}

  module _ (lib : Crates) where
    -- The name in the register of the context; one that is not valid becomes the default name.
    unfoldable pub read_account_id : Exec World AccountId
    read_account_id = do
      bytes ← to_vec h env_register_id
      lift (if is_utf8 bytes then ok tt else err trap)
      pure (or_default (AccountId.new lib bytes))

    unfoldable pub signer_account_id : Exec World AccountId
    signer_account_id = do run (h.signer_account_id env_register_id); read_account_id

    unfoldable pub current_account_id : Exec World AccountId
    current_account_id = do run (h.current_account_id env_register_id); read_account_id

    unfoldable pub predecessor_account_id : Exec World AccountId
    predecessor_account_id = do run (h.predecessor_account_id env_register_id); read_account_id

    unfoldable pub assert_private_call : Exec World (Result ContractError (Unit {0}))
    assert_private_call = do
      predecessor ← predecessor_account_id
      current ← current_account_id
      pure (if account_eq predecessor current then ok tt else err private_call_error)

  unfoldable pub block_height : Exec World ℕ
  block_height = ask h.block_index

  unfoldable pub attached_deposit : Exec World ℕ
  attached_deposit = ask (λ w. from_le_bytes (h.attached_deposit w))

  unfoldable pub account_balance : Exec World ℕ
  account_balance = ask (λ w. from_le_bytes (h.account_balance w))

  unfoldable pub assert_one_yocto : Exec World (Result ContractError (Unit {0}))
  assert_one_yocto = do
    deposit ← attached_deposit
    pure (if deposit == 1 then ok tt else err one_yocto_attach_error)
