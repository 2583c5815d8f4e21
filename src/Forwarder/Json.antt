-- ===== src/Forwarder/Json.antt =====
-- forwarder/src/params.rs: the JSON arguments of the token calls, built in a buffer of 128 bytes.
pub mod Push
pub mod Fits
use aurora_forwarder_contrac.Base.{
  ℕ, [], ◌∷◌, Option, none, some, Bytes, codes, Result, ok, err, trap,
}
use aurora_forwarder_contrac.Base.Results.{◌>>=◌, Outcome}
use aurora_forwarder_contrac.Crates.{Crates}
use aurora_forwarder_contrac.Forwarder.AccountId.{AccountId}
use aurora_forwarder_contrac.Forwarder.Address.{Address}
use aurora_forwarder_contrac.Forwarder.Borsh.{vec_capacity}
use aurora_forwarder_contrac.Forwarder.Decimal.{amount_to_str}

-- The capacity of the `ArrayString` that the text is built in.
abbrev pub json_capacity : ℕ
json_capacity = 128

abbrev pub or_trap {ℓ} : {A : Type ℓ} → Option A → Outcome A
or_trap (some a) = ok a
or_trap none = err trap

abbrev pub or_empty : Option Bytes → Bytes
or_empty (some s) = s
or_empty none = []

module _ (lib : Crates) where
  -- `result.push_str(s)`
  unfoldable pub push_str : Bytes → Bytes → Outcome Bytes
  push_str result s = or_trap (lib.try_push_str json_capacity result s)

  -- `for c in ... { result.push(c) }`
  unfoldable pub push_chars : Bytes → Bytes → Outcome Bytes
  push_chars result [] = ok result
  push_chars result (c ∷ s) = do result ← push_str result (c ∷ []); push_chars result s

  -- `Vec::try_from(result.as_bytes()).unwrap_or_default()`
  unfoldable pub to_vec : Bytes → Bytes
  to_vec result = or_empty (lib.try_from_slice vec_capacity result)

  unfoldable pub ft_transfer_call_args : AccountId → ℕ → Address → Outcome Bytes
  ft_transfer_call_args receiver_id amount address = do
    result ← push_str [] (codes "{\"receiver_id\":\"")
    result ← push_str result receiver_id.as_bytes
    result ← push_str result (codes "\",\"amount\":\"")
    digits ← amount_to_str amount
    result ← push_str result digits
    result ← push_str result (codes "\",\"msg\":\"")
    result ← push_chars result (lib.bytes_to_hex address.raw)
    result ← push_str result (codes "\"}")
    ok (to_vec result)

  unfoldable pub ft_transfer_args : AccountId → ℕ → Outcome Bytes
  ft_transfer_args receiver_id amount = do
    result ← push_str [] (codes "{\"receiver_id\":\"")
    result ← push_str result receiver_id.as_bytes
    result ← push_str result (codes "\",\"amount\":\"")
    digits ← amount_to_str amount
    result ← push_str result digits
    result ← push_str result (codes "\"}")
    ok (to_vec result)

  unfoldable pub ft_balance_args : AccountId → Outcome Bytes
  ft_balance_args account_id = do
    result ← push_str [] (codes "{\"account_id\":\"")
    result ← push_str result account_id.as_bytes
    result ← push_str result (codes "\"}")
    ok (to_vec result)
