-- ===== src/Forwarder/Contract/Errors.antt =====
-- The calls that panic (forwarder/src/lib.rs, forwarder/src/runtime): for each entry point the
-- conditions on which its code ends early, in the order of the code, and the panic that ends it.
pub mod Callbacks
pub mod Results
pub mod Begin
pub mod All
use aurora_forwarder_contrac.Base.{
  ℕ, ◌+◌, ◌-◌, ◌^◌, ◌≤◌, ◌<◌, ◌≡◌, ◌≢◌, none, some, Bytes, codes, length, Result, ok, err, Panic,
  utf8, trap, stopped,
}
use aurora_forwarder_contrac.Crates.{Crates, IoError}
use aurora_forwarder_contrac.Forwarder.AccountId.{AccountId}
use aurora_forwarder_contrac.Forwarder.AccountId.Codec.{IsAccount}
use aurora_forwarder_contrac.Forwarder.Contract.Constants.{minimum_balance, near}
use aurora_forwarder_contrac.Forwarder.Contract.Exports.{Entry}
use aurora_forwarder_contrac.Forwarder.Contract.Private.{IsCallback}
use aurora_forwarder_contrac.Forwarder.Contract.Spec.{IsReady}
use aurora_forwarder_contrac.Forwarder.Decimal.{vec_to_number}
use aurora_forwarder_contrac.Forwarder.Decimal.Print.{decimal}
use aurora_forwarder_contrac.Forwarder.Error.{ContractError, message}
use aurora_forwarder_contrac.Forwarder.Host.Machine.{Machine, result_at}
use aurora_forwarder_contrac.Forwarder.Params.{
  State, ForwardParams, FinishForwardParams, state_storage_key, read_state, read_forward_params,
  read_finish_params, try_from_slice,
}
use aurora_forwarder_contrac.Forwarder.Params.Layout.{IsState, names_length}
use aurora_forwarder_contrac.Forwarder.Promise.{successful, failed, not_ready}

-- The input of each entry point, and its reader: `destroy` has none.
abbrev pub Input : Entry → Type 0
Input Entry.new = State
Input Entry.forward = ForwardParams
Input Entry.calculate_fees_callback = ForwardParams
Input Entry.finish_forward_callback = FinishForwardParams
Input Entry.destroy = Unit

abbrev pub parse_input : Crates → (e : Entry) → Bytes → Result IoError (Input e)
parse_input lib Entry.new v = try_from_slice (read_state lib) v
parse_input lib Entry.forward v = try_from_slice (read_forward_params lib) v
parse_input lib Entry.calculate_fees_callback v = try_from_slice (read_forward_params lib) v
parse_input lib Entry.finish_forward_callback v = try_from_slice (read_finish_params lib) v
parse_input lib Entry.destroy v = ok tt

-- The promise result that a callback looks at.
abbrev pub looks_at : (e : Entry) → Input e → ℕ
looks_at Entry.new p = 0
looks_at Entry.forward p = 0
looks_at Entry.calculate_fees_callback p = 0
looks_at Entry.finish_forward_callback p = p.promise_idx
looks_at Entry.destroy p = 0

-- The contract on the account `self` calls itself.
pub record IsSelfCall (self : AccountId) (m : Machine) : Type 0 where
  pub valid : IsAccount self
  pub here : m.current ≡ self.as_bytes
  pub caller : m.predecessor ≡ self.as_bytes

-- The call gets as far as to its input.
abbrev pub IsAdmitted : AccountId → Machine → Entry → Type 0
IsAdmitted self m Entry.new = m.storage state_storage_key ≡ none
IsAdmitted self m Entry.forward = m.deposit ≡ 1
IsAdmitted self m Entry.calculate_fees_callback = IsSelfCall self m
IsAdmitted self m Entry.finish_forward_callback = IsSelfCall self m
IsAdmitted self m Entry.destroy = ⊥

-- Its input is read.
pub record IsRead (lib : Crates) (self : AccountId) (m : Machine) (e : Entry) (p : Input e)
    : Type 0 where
  pub admitted : IsAdmitted self m e
  pub short : length m.input_bytes ≤ 256
  pub parsed : parse_input lib e m.input_bytes ≡ ok p

-- The call of `e` panics with this panic.
pub data IsFault (lib : Crates) (self : AccountId) (m : Machine) : Entry → Panic → Type 0 where
  -- the guards
  initialized :
      (s : State)
      → IsReady lib s self m
      → IsFault lib self m Entry.new (utf8 (codes "ERR_ALREADY_INITIALIZED"))
  no_yocto :
      m.deposit < 2 ^ 128
      → m.deposit ≢ 1
      → IsFault lib self m Entry.forward (utf8 (codes "ERR_ONE_YOCTO_ATACH"))
  other_caller :
      (e : Entry) (caller : AccountId)
      → IsCallback e
      → IsAccount self
      → m.current ≡ self.as_bytes
      → IsAccount caller
      → m.predecessor ≡ caller.as_bytes
      → caller.as_bytes ≢ self.as_bytes
      → IsFault lib self m e (utf8 (codes "ERR_PRIVATE_CALL"))
  not_owner :
      (s : State) (caller : AccountId)
      → IsReady lib s self m
      → IsAccount caller
      → m.predecessor ≡ caller.as_bytes
      → caller.as_bytes ≢ s.owner_id.as_bytes
      → IsFault lib self m Entry.destroy (utf8 (codes "ONLY OWNER CAN DESTROY"))
  -- the input
  long_input :
      (e : Entry)
      → IsAdmitted self m e
      → 256 < length m.input_bytes
      → length m.input_bytes < 2 ^ 32
      → IsFault lib self m e trap
  bad_input :
      (e : Entry) (x : IoError)
      → IsAdmitted self m e
      → length m.input_bytes ≤ 256
      → parse_input lib e m.input_bytes ≡ err x
      → IsFault lib self m e (utf8 (codes "ERR_BORCH_DESERIALIZE"))
  -- the balance and the state
  low_balance :
      (p : ForwardParams)
      → IsRead lib self m Entry.forward p
      → p.token_id.as_bytes ≡ near
      → m.balance ≤ minimum_balance
      → IsFault lib self m Entry.forward trap
  no_state_native :
      (p : ForwardParams)
      → IsRead lib self m Entry.forward p
      → p.token_id.as_bytes ≡ near
      → m.balance < 2 ^ 128
      → minimum_balance < m.balance
      → m.storage state_storage_key ≡ none
      → IsFault lib self m Entry.forward trap
  no_state_destroy :
      m.storage state_storage_key ≡ none
      → IsFault lib self m Entry.destroy (utf8 (codes "No state"))
  no_state :
      (e : Entry) (p : Input e)
      → IsCallback e
      → IsRead lib self m e p
      → m.storage state_storage_key ≡ none
      → IsFault lib self m e (utf8 (codes "No state"))
  -- the promise result
  -- the host stops the call where it is missing
  no_result :
      (e : Entry) (s : State) (p : Input e)
      → IsCallback e
      → IsRead lib self m e p
      → IsReady lib s self m
      → result_at m.results (looks_at e p) ≡ none
      → IsFault lib self m e stopped
  long_result :
      (e : Entry) (s : State) (p : Input e) (v : Bytes)
      → IsCallback e
      → IsRead lib self m e p
      → IsReady lib s self m
      → result_at m.results (looks_at e p) ≡ some (successful v)
      → 256 < length v
      → length v < 2 ^ 32
      → IsFault lib self m e trap
  failed_result :
      (e : Entry) (s : State) (p : Input e)
      → IsCallback e
      → IsRead lib self m e p
      → IsReady lib s self m
      → result_at m.results (looks_at e p) ≡ some failed
      → IsFault lib self m e (utf8 (codes "FEE RESULT IS NOT READY"))
  pending_result :
      (e : Entry) (s : State) (p : Input e)
      → IsCallback e
      → IsRead lib self m e p
      → IsReady lib s self m
      → result_at m.results (looks_at e p) ≡ some not_ready
      → IsFault lib self m e (utf8 (codes "FEE RESULT IS NOT READY"))
  bad_balance :
      (s : State) (p : ForwardParams) (v : Bytes) (x : ContractError)
      → IsRead lib self m Entry.calculate_fees_callback p
      → IsReady lib s self m
      → result_at m.results 0 ≡ some (successful v)
      → length v ≤ 256
      → vec_to_number v ≡ err x
      → IsFault lib self m Entry.calculate_fees_callback (utf8 (message x))
  bad_fee :
      (s : State) (p : FinishForwardParams) (v : Bytes) (x : IoError)
      → IsRead lib self m Entry.finish_forward_callback p
      → IsReady lib s self m
      → result_at m.results p.promise_idx ≡ some (successful v)
      → length v ≤ 256
      → try_from_slice lib.read_u128 v ≡ err x
      → IsFault lib self m Entry.finish_forward_callback (utf8 (codes "ERR_BORCH_DESERIALIZE"))
  -- texts that do not fit their buffers
  long_state :
      (s : State)
      → IsRead lib self m Entry.new s
      → IsState s
      → 220 < names_length s
      → IsFault lib self m Entry.new trap
  long_transfer :
      (s : State) (p : FinishForwardParams) (v : Bytes) (fee : ℕ)
      → IsRead lib self m Entry.finish_forward_callback p
      → IsReady lib s self m
      → p.amount < 2 ^ 128
      → result_at m.results p.promise_idx ≡ some (successful v)
      → length v ≤ 256
      → try_from_slice lib.read_u128 v ≡ ok fee
      → 49 < length s.target_network.as_bytes + length (decimal (p.amount - fee))
      → IsFault lib self m Entry.finish_forward_callback trap
