-- ===== src/Forwarder/Tests.antt =====
-- The theorems on names, amounts and parameters at concrete values.
use aurora_forwarder_contrac.Forwarder.Params.Valid.{read_state-IsState}
use aurora_forwarder_contrac.Base.{
  ℕ, ◌+◌, ◌≤◌, ◌≡◌, ◌⊎◌, ◌↔◌, refl, [], ◌∷◌, ◌++◌, Bytes, codes, length, leb, if◌then◌else◌, ok,
  err, trap, All, arith,
}
use aurora_forwarder_contrac.Crates.Reference.{reference, reference-IsDocumented}
use aurora_forwarder_contrac.Forwarder.AccountId
use aurora_forwarder_contrac.Forwarder.AccountId.{AccountId, validate}
use aurora_forwarder_contrac.Forwarder.AccountId.Grammar.{IsName, validate_iff}
use aurora_forwarder_contrac.Forwarder.AccountId.Codec.{deserialize_reader-serialize}
use aurora_forwarder_contrac.Forwarder.Decimal.{amount_to_str, vec_to_number}
use aurora_forwarder_contrac.Forwarder.Decimal.Parse.{vec_to_number-amount_to_str}
use aurora_forwarder_contrac.Forwarder.Decimal.Print.{
  decimal, value_from, IsDigit, IsLeading, amount_to_str_total,
}
use aurora_forwarder_contrac.Forwarder.Error.{parse_account_error}
use aurora_forwarder_contrac.Forwarder.Fixtures.{
  aurora, aurora-IsAccount, address, state_for, state_for-IsState,
}
use aurora_forwarder_contrac.Forwarder.Json.{ft_transfer_call_args}
use aurora_forwarder_contrac.Forwarder.Json.Fits.{transfer_call_json, ft_transfer_call_args-json}
use aurora_forwarder_contrac.Forwarder.Params.{try_from_slice, read_state}
use aurora_forwarder_contrac.Forwarder.Params.Layout.{state_bytes, IsState}
use aurora_forwarder_contrac.Forwarder.Params.RoundTrip.{read_state-bytes}

vec_to_number-amount_to_str_example :
    (s : Bytes) × (amount_to_str 1000 ≡ ok s)
    × (vec_to_number s ≡ ok 1000)
    × (vec_to_number (b'"' ∷ (s ++ b'"' ∷ [])) ≡ ok 1000)
vec_to_number-amount_to_str_example = vec_to_number-amount_to_str 1000 (omega arith)

amount_to_str_total_example :
    (s : Bytes) × (amount_to_str 1000 ≡ ok s)
    × (value_from 0 s ≡ 1000)
    × All IsDigit s
    × (1 ≤ length s)
    × (length s ≤ 39)
    × ((◌≡◌ {A = ℕ} 1000 0) ⊎ IsLeading s)
amount_to_str_total_example = amount_to_str_total 1000 (omega arith)

read_state-bytes_example :
    try_from_slice (read_state reference) (state_bytes reference (state_for aurora))
    ≡ ok (state_for aurora)
read_state-bytes_example =
    read_state-bytes reference-IsDocumented (state_for aurora)
      (state_for-IsState aurora aurora-IsAccount)

read_state-IsState_example : IsState (state_for aurora)
read_state-IsState_example =
    read_state-IsState reference-IsDocumented (state_bytes reference (state_for aurora)) (
      read_state-bytes reference-IsDocumented (state_for aurora)
        (state_for-IsState aurora aurora-IsAccount))

validate_iff_example :
    ((validate (codes "a.b") ≡ ok tt)
      ↔ ((2 ≤ length (codes "a.b")) × (length (codes "a.b") ≤ 64) × IsName (codes "a.b")))
    × ((validate (codes "a.b") ≡ ok tt) ⊎ (validate (codes "a.b") ≡ err parse_account_error))
validate_iff_example = validate_iff (codes "a.b")

deserialize_reader-serialize_example :
    (s : Bytes) × (AccountId.serialize reference aurora ≡ ok s)
    × (AccountId.deserialize_reader reference (s ++ 7 ∷ []) ≡ ok (aurora, 7 ∷ []))
deserialize_reader-serialize_example =
    deserialize_reader-serialize reference-IsDocumented aurora (7 ∷ []) aurora-IsAccount

ft_transfer_call_args-json_example : ft_transfer_call_args reference aurora 1000 address ≡ (
    if leb (length aurora.as_bytes + length (decimal 1000)) 49
    then ok (transfer_call_json reference aurora 1000 address)
    else err trap)
ft_transfer_call_args-json_example =
    ft_transfer_call_args-json reference-IsDocumented aurora 1000 address (omega arith) refl
