-- ===== src/Forwarder/Contract.antt =====
-- forwarder/src/lib.rs: the entry points of the forwarder contract.
pub mod Constants
pub mod Exports
pub mod Sim
pub mod Spec
pub mod Native
pub mod Private
pub mod Errors
pub mod Ends
pub mod Destroy
pub mod Init
pub mod Transfers
pub mod Finish
pub mod Fees
pub mod Forward
pub mod Tests
use aurora_forwarder_contrac.Base.{
  ℕ, ◌-◌, Bool, true, false, Option, none, some, List, [], ◌∷◌, Bytes, bytes_eq, codes, ltb, leb,
  ◌==◌, not, if◌then◌else◌, Result, ok, err, map_err,
}
use aurora_forwarder_contrac.Crates.{Crates}
use aurora_forwarder_contrac.Forwarder.AccountId
use aurora_forwarder_contrac.Forwarder.AccountId.{AccountId}
use aurora_forwarder_contrac.Forwarder.Borsh.{to_borsh}
use aurora_forwarder_contrac.Forwarder.Decimal.{vec_to_number}
use aurora_forwarder_contrac.Forwarder.Error.{ContractError, borsh_deserialize_error}
use aurora_forwarder_contrac.Forwarder.Host.{Host}
use aurora_forwarder_contrac.Forwarder.Json.{
  ft_transfer_call_args, ft_transfer_args, ft_balance_args,
}
use aurora_forwarder_contrac.Forwarder.Params.{
  State, ForwardParams, FinishForwardParams, FeesParams, is_owner, try_from_slice, read_state,
  read_forward_params, read_finish_params, write_fees_params, write_finish_params,
}
use aurora_forwarder_contrac.Forwarder.Promise.{
  PromiseCreateArgs, add_full_access_key, delete_account, PromiseResult, successful, failed,
  not_ready,
}
use aurora_forwarder_contrac.Forwarder.Runtime.Exec.{
  Exec, lift, pure, panic_utf8, sdk_unwrap, sdk_expect, or_trap, ◌>>=◌, ◌>>◌,
}
use aurora_forwarder_contrac.Forwarder.Runtime.Env.{
  current_account_id, predecessor_account_id, assert_private_call, assert_one_yocto,
  account_balance,
}
use aurora_forwarder_contrac.Forwarder.Runtime.Io.{read_input_borsh, save, load}
use aurora_forwarder_contrac.Forwarder.Runtime.Handler.{
  PromiseId, promise_result, promise_create_call, promise_create_and_combine,
  promise_attach_callback, promise_create_batch, promise_return, promise_create_with_callback,
}
use aurora_forwarder_contrac.Forwarder.Contract.Exports.{Entry}
use aurora_forwarder_contrac.Forwarder.Contract.Constants.{
  minimum_balance, zero_yocto, calculate_fees_gas, near_deposit_gas, ft_balance_gas,
  ft_transfer_gas, ft_transfer_call_gas, calculate_fees_callback_gas, finish_forward_gas,
  updater_pk, near,
}

-- `checked_sub(MINIMUM_BALANCE).filter(|a| *a > 0)`
unfoldable pub forwardable : ℕ → Option ℕ
forwardable balance =
    if leb minimum_balance balance
    then (if ltb 0 (balance - minimum_balance) then some (balance - minimum_balance) else none)
    else none

module _ (h : Host) (lib : Crates) where
  open h use {World}

  unfoldable pub refuse_initialized : Option State → Exec World (Unit {0})
  refuse_initialized (some _) = panic_utf8 (codes "ERR_ALREADY_INITIALIZED")
  refuse_initialized none = pure tt

  unfoldable pub new : Exec World (Unit {0})
  new = do
    existing ← load h lib
    refuse_initialized existing
    input ← read_input_borsh h (try_from_slice (read_state lib))
    state ← sdk_unwrap input
    save h lib state
    current ← current_account_id h lib
    promise_id ←
        promise_create_batch h
          (record { target_account_id = current; actions = add_full_access_key updater_pk 0 ∷ [] })
    promise_return h promise_id

  unfoldable pub forward_native_token : Exec World (Unit {0})
  forward_native_token = do
    balance ← account_balance h
    amount ← or_trap (forwardable balance)
    stored ← load h lib
    state ← or_trap stored
    fees_args ← lift (
        to_borsh (
          write_fees_params lib (record {
            amount = amount;
            token_id = state.wnear_contract_id;
            target_network = state.target_network;
            target_address = state.target_address;
          })))
    fees_args ← sdk_unwrap fees_args
    promise_id ← promise_create_and_combine h (
        record {
          target_account_id = state.wnear_contract_id;
          method = codes "near_deposit";
          args = [];
          attached_balance = amount;
          attached_gas = near_deposit_gas;
        }
        ∷ record {
          target_account_id = state.fees_contract_id;
          method = codes "calculate_fees";
          args = fees_args;
          attached_balance = zero_yocto;
          attached_gas = calculate_fees_gas;
        }
        ∷ [])
    current ← current_account_id h lib
    finish_args ← lift (
        to_borsh (
          write_finish_params lib
            (record { amount = amount; token_id = state.wnear_contract_id; promise_idx = 1 })))
    finish_args ← sdk_unwrap finish_args
    promise_id ← promise_attach_callback h promise_id (record {
      target_account_id = current;
      method = codes "finish_forward_callback";
      args = finish_args;
      attached_balance = 2;
      attached_gas = finish_forward_gas;
    })
    promise_return h promise_id

  unfoldable pub forward_nep141_token : AccountId → Exec World (Unit {0})
  forward_nep141_token token_id = do
    callback_args ← lift (to_borsh (AccountId.serialize lib token_id))
    callback_args ← sdk_unwrap callback_args
    holder ← current_account_id h lib
    balance_args ← lift (ft_balance_args lib holder)
    current ← current_account_id h lib
    promise_id ← promise_create_with_callback h (record {
      base = record {
        target_account_id = token_id;
        method = codes "ft_balance_of";
        args = balance_args;
        attached_balance = zero_yocto;
        attached_gas = ft_balance_gas;
      };
      callback = record {
        target_account_id = current;
        method = codes "calculate_fees_callback";
        args = callback_args;
        attached_balance = zero_yocto;
        attached_gas = calculate_fees_callback_gas;
      };
    })
    promise_return h promise_id

  unfoldable pub forward : Exec World (Unit {0})
  forward = do
    deposit ← assert_one_yocto h
    sdk_unwrap deposit
    input ← read_input_borsh h (try_from_slice (read_forward_params lib))
    params ← sdk_unwrap input
    if bytes_eq params.token_id.as_bytes near
        then forward_native_token
        else forward_nep141_token params.token_id

  -- The match on the result of the token's `ft_balance_of`.
  unfoldable pub balance_of_result : PromiseResult → Exec World ℕ
  balance_of_result (successful v) = sdk_unwrap (vec_to_number v)
  balance_of_result failed = panic_utf8 (codes "FEE RESULT IS NOT READY")
  balance_of_result not_ready = panic_utf8 (codes "FEE RESULT IS NOT READY")

  unfoldable pub calculate_fees_callback : Exec World (Unit {0})
  calculate_fees_callback = do
    private ← assert_private_call h lib
    sdk_unwrap private
    input ← read_input_borsh h (try_from_slice (read_forward_params lib))
    params ← sdk_unwrap input
    stored ← load h lib
    state ← sdk_expect (codes "No state") stored
    result ← promise_result h 0
    result ← sdk_expect (codes "No promise result") result
    amount ← balance_of_result result
    fees_args ← lift (
        to_borsh (
          write_fees_params lib (record {
            amount = amount;
            token_id = params.token_id;
            target_network = state.target_network;
            target_address = state.target_address;
          })))
    fees_args ← sdk_unwrap fees_args
    promise_id ← promise_create_call h (record {
      target_account_id = state.fees_contract_id;
      method = codes "calculate_fees";
      args = fees_args;
      attached_balance = zero_yocto;
      attached_gas = calculate_fees_gas;
    })
    current ← current_account_id h lib
    finish_args ← lift (
        to_borsh (
          write_finish_params lib
            (record { amount = amount; token_id = params.token_id; promise_idx = 0 })))
    finish_args ← sdk_unwrap finish_args
    promise_id ← promise_attach_callback h promise_id (record {
      target_account_id = current;
      method = codes "finish_forward_callback";
      args = finish_args;
      attached_balance = 2;
      attached_gas = finish_forward_gas;
    })
    promise_return h promise_id

  -- The match on the result of `calculate_fees`.
  unfoldable pub fee_of_result : PromiseResult → Exec World ℕ
  fee_of_result (successful v) =
      sdk_unwrap (map_err (λ _. borsh_deserialize_error) (try_from_slice lib.read_u128 v))
  fee_of_result failed = panic_utf8 (codes "FEE RESULT IS NOT READY")
  fee_of_result not_ready = panic_utf8 (codes "FEE RESULT IS NOT READY")

  unfoldable pub send_fee : AccountId → AccountId → ℕ → PromiseId → Exec World PromiseId
  send_fee token_id fees_contract_id fee promise_id = do
    fee_args ← lift (ft_transfer_args lib fees_contract_id fee)
    promise_attach_callback h promise_id (record {
      target_account_id = token_id;
      method = codes "ft_transfer";
      args = fee_args;
      attached_balance = 1;
      attached_gas = ft_transfer_gas;
    })

  -- `if fee > 0 { ... }`: the fee is sent on after the transfer.
  unfoldable pub pay_fee : AccountId → AccountId → ℕ → PromiseId → Exec World PromiseId
  pay_fee token_id fees_contract_id fee promise_id =
      if ltb 0 fee then send_fee token_id fees_contract_id fee promise_id else pure promise_id

  -- What `finish_forward_callback` does once it has the fee.
  unfoldable pub transfers : State → FinishForwardParams → ℕ → Exec World (Unit {0})
  transfers state params fee = do
    let amount = params.amount - fee
    transfer_args ←
        lift (ft_transfer_call_args lib state.target_network amount state.target_address)
    promise_id ← promise_create_call h (record {
      target_account_id = params.token_id;
      method = codes "ft_transfer_call";
      args = transfer_args;
      attached_balance = 1;
      attached_gas = ft_transfer_call_gas;
    })
    promise_id ← pay_fee params.token_id state.fees_contract_id fee promise_id
    promise_return h promise_id

  unfoldable pub finish_forward_callback : Exec World (Unit {0})
  finish_forward_callback = do
    private ← assert_private_call h lib
    sdk_unwrap private
    input ← read_input_borsh h (try_from_slice (read_finish_params lib))
    params ← sdk_unwrap input
    stored ← load h lib
    state ← sdk_expect (codes "No state") stored
    result ← promise_result h params.promise_idx
    result ← sdk_expect (codes "No promise result") result
    fee ← fee_of_result result
    transfers state params fee

  unfoldable pub destroy : Exec World (Unit {0})
  destroy = do
    stored ← load h lib
    state ← sdk_expect (codes "No state") stored
    predecessor_id ← predecessor_account_id h lib
    if not (is_owner state predecessor_id)
        then panic_utf8 (codes "ONLY OWNER CAN DESTROY")
        else pure tt
    current ← current_account_id h lib
    promise_id ←
        promise_create_batch h
          (record { target_account_id = current; actions = delete_account predecessor_id ∷ [] })
    promise_return h promise_id

-- The function that the host calls for an exported name.
unfoldable pub enter : (h : Host) (lib : Crates) → Entry → Exec h.World (Unit {0})
enter h lib Entry.new = new h lib
enter h lib Entry.forward = forward h lib
enter h lib Entry.calculate_fees_callback = calculate_fees_callback h lib
enter h lib Entry.finish_forward_callback = finish_forward_callback h lib
enter h lib Entry.destroy = destroy h lib
