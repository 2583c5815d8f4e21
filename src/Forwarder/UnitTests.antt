-- ===== src/Forwarder/UnitTests.antt =====
-- The unit tests of the forwarder (forwarder/src/params.rs, forwarder/src/types/account_id.rs), on
-- the crates of Crates/Reference. A test panics or says whether its assertions hold.
use aurora_forwarder_contrac.Base.{
  ℕ, ◌-◌, ◌^◌, ◌≡◌, refl, Bool, true, false, ◌&&◌, [], ◌∷◌, Bytes, bytes_eq, codes, is_utf8, ◌==◌,
  Result, ok, err, map_err, trap,
}
use aurora_forwarder_contrac.Base.Results.{Outcome, ◌>>=◌}
use aurora_forwarder_contrac.Crates.Reference.{reference, str, hex, read_le, le_bytes}
use aurora_forwarder_contrac.Forwarder.AccountId
use aurora_forwarder_contrac.Forwarder.AccountId.{AccountId, account_eq, validate}
use aurora_forwarder_contrac.Forwarder.Address
use aurora_forwarder_contrac.Forwarder.Address.{Address}
use aurora_forwarder_contrac.Forwarder.Borsh.{to_borsh}
use aurora_forwarder_contrac.Forwarder.Decimal.{amount_to_str, vec_to_number}
use aurora_forwarder_contrac.Forwarder.Error.{ContractError, bad_utf8_string, bad_number}
use aurora_forwarder_contrac.Forwarder.Json
use aurora_forwarder_contrac.Forwarder.Json.{
  ft_transfer_call_args, ft_transfer_args, ft_balance_args,
}
use aurora_forwarder_contrac.Forwarder.Params.{State, write_state, read_state, try_from_slice}
use aurora_forwarder_contrac.Forwarder.Reader.{read_exact}

abbrev unwrap : {E A : Type 0} → Result E A → Outcome A
unwrap r = map_err (λ _. trap) r

abbrev account : Bytes → Outcome AccountId
account name = unwrap (AccountId.new reference name)

abbrev test_account_id : Outcome Bool
test_account_id = do
  account_id ← account (codes "test.near")
  ser ← to_borsh (AccountId.serialize reference account_id)
  ser ← unwrap ser
  expected ← unwrap (try_from_slice (AccountId.deserialize_reader reference) ser)
  ok (bytes_eq account_id.as_bytes (codes "test.near") && account_eq account_id expected)

test_account_id_lem : test_account_id ≡ ok true
unfolding AccountId.new validate AccountId.serialize AccountId.deserialize_reader to_borsh str
    read_exact read_le le_bytes bytes_eq is_utf8
test_account_id_lem = refl

-- The derived `PartialEq`
abbrev state_eq : State → State → Bool
state_eq s t =
    bytes_eq s.target_address.raw t.target_address.raw
    && (account_eq s.target_network t.target_network
        && (account_eq s.wnear_contract_id t.wnear_contract_id
            && (account_eq s.fees_contract_id t.fees_contract_id
                && account_eq s.owner_id t.owner_id)))

abbrev ones : Bytes
ones = 1 ∷ 1 ∷ 1 ∷ 1 ∷ 1 ∷ 1 ∷ 1 ∷ 1 ∷ 1 ∷ 1 ∷ 1 ∷ 1 ∷ 1 ∷ 1 ∷ 1 ∷ 1 ∷ 1 ∷ 1 ∷ 1 ∷ 1 ∷ []

abbrev test_deserialize_state : Outcome Bool
test_deserialize_state = do
  target ← account (codes "target.near")
  wnear ← account (codes "wnear.near")
  fees ← account (codes "fees.near")
  owner ← account (codes "owner.near")
  let original : State = record {
    target_address = record { raw = ones };
    target_network = target;
    wnear_contract_id = wnear;
    fees_contract_id = fees;
    owner_id = owner;
  }
  bytes ← to_borsh (write_state reference original)
  bytes ← unwrap bytes
  expected ← unwrap (try_from_slice (read_state reference) bytes)
  ok (state_eq original expected)

test_deserialize_state_lem : test_deserialize_state ≡ ok true
unfolding AccountId.new validate write_state read_state Address.serialize Address.deserialize_reader
    AccountId.serialize AccountId.deserialize_reader to_borsh str read_exact read_le le_bytes
    bytes_eq is_utf8
test_deserialize_state_lem = refl

abbrev test_ft_balance_args : Outcome Bool
test_ft_balance_args = do
  id ← account (codes "test.near")
  json ← ft_balance_args reference id
  ok (bytes_eq json (codes "{\"account_id\":\"test.near\"}"))

test_ft_balance_args_lem : test_ft_balance_args ≡ ok true
unfolding AccountId.new validate ft_balance_args Json.push_str Json.to_vec bytes_eq is_utf8
test_ft_balance_args_lem = refl

abbrev test_ft_transfer_args : Outcome Bool
test_ft_transfer_args = do
  id ← account (codes "test.near")
  json ← ft_transfer_args reference id 12_345_670
  zero_json ← ft_transfer_args reference id 0
  ok (
      bytes_eq json (codes "{\"receiver_id\":\"test.near\",\"amount\":\"12345670\"}")
      && bytes_eq zero_json (codes "{\"receiver_id\":\"test.near\",\"amount\":\"0\"}"))

test_ft_transfer_args_lem : test_ft_transfer_args ≡ ok true
unfolding AccountId.new validate ft_transfer_args Json.push_str Json.push_chars Json.to_vec
    amount_to_str bytes_eq is_utf8
test_ft_transfer_args_lem = refl

-- The bytes of 7e5f4552091a69125d5dfcb7b8c2659029395bdf
abbrev some_address : Address
some_address = record {
  raw =
      126 ∷ 95 ∷ 69 ∷ 82 ∷ 9 ∷ 26 ∷ 105 ∷ 18 ∷ 93 ∷ 93 ∷ 252 ∷ 183 ∷ 184 ∷ 194 ∷ 101 ∷ 144 ∷ 41 ∷ 57
      ∷ 91 ∷ 223 ∷ [];
}

abbrev test_ft_transfer_call_args : Outcome Bool
test_ft_transfer_call_args = do
  id ← account (codes "test.near")
  json ← ft_transfer_call_args reference id 12_345_670 some_address
  ok (
      bytes_eq json (
        codes
          "{\"receiver_id\":\"test.near\",\"amount\":\"12345670\",\"msg\":\"7e5f4552091a69125d5dfcb7b8c2659029395bdf\"}"))

test_ft_transfer_call_args_lem : test_ft_transfer_call_args ≡ ok true
unfolding AccountId.new validate ft_transfer_call_args Json.push_str Json.push_chars Json.to_vec
    amount_to_str hex bytes_eq is_utf8
test_ft_transfer_call_args_lem = refl

-- `u128::MAX`
abbrev max_u128 : ℕ
max_u128 = 2 ^ 128 - 1

abbrev test_amount_to_str : Outcome Bool
test_amount_to_str = do
  zero_text ← amount_to_str 0
  text ← amount_to_str 3_498_832
  max_text ← amount_to_str max_u128
  ok (
      bytes_eq zero_text (codes "0")
      && (bytes_eq text (codes "3498832")
          && bytes_eq max_text (codes "340282366920938463463374607431768211455")))

test_amount_to_str_lem : test_amount_to_str ≡ ok true
unfolding amount_to_str bytes_eq
test_amount_to_str_lem = refl

abbrev is_number : Result ContractError ℕ → ℕ → Bool
is_number (ok n) m = n == m
is_number (err _) m = false

abbrev is_bad_utf8_string : Result ContractError ℕ → Bool
is_bad_utf8_string (err bad_utf8_string) = true
is_bad_utf8_string _ = false

abbrev is_bad_number : Result ContractError ℕ → Bool
is_bad_number (err bad_number) = true
is_bad_number _ = false

abbrev test_vec_to_number : Bool
test_vec_to_number =
    is_number (vec_to_number (codes "42")) 42
    && (is_bad_utf8_string (vec_to_number (b'4' ∷ 195 ∷ 40 ∷ []))
        && is_bad_number (vec_to_number (codes "4x")))

test_vec_to_number_lem : test_vec_to_number ≡ true
unfolding vec_to_number is_utf8
test_vec_to_number_lem = refl
