-- ===== src/Fees/Percent.antt =====
-- fees/src/lib.rs: `parse_percent` and `validate_decimal_part`.
pub mod Accepts
pub mod Whole
use aurora_forwarder_contrac.Base.{
  ℕ, ◌^◌, ◌<◌, Option, none, some, [], ◌∷◌, Bytes, codes, length, ltb, ◌==◌, if◌then◌else◌, Result,
  ok, err, map_err,
}
use aurora_forwarder_contrac.Base.Results.{◌>>=◌}

-- `f64` with the operations that the contract uses. There are no floats here: the type is a
-- parameter. The cast to u64 saturates.
pub record Float : Type 1 where
  pub F : Type 0
  -- or the description of the error
  pub from_str : Bytes → Result Bytes F
  pub of_u64 : ℕ → F
  pub mul : F → F → F
  pub div : F → F → F
  pub to_u64 : F → ℕ
  pub to_u64_fits : (x : F) → to_u64 x < 2 ^ 64
  -- `format!("{:.2}", x)`
  pub show_2 : F → Bytes

abbrev pub min_fee_percent : ℕ
min_fee_percent = 1

abbrev pub max_fee_percent : ℕ
max_fee_percent = 1000

pub data ParseError : Type 0 where
  -- the description of the `ParseFloatError`
  parse_float : Bytes → ParseError
  too_low_percent : ParseError
  too_high_percent : ParseError
  too_many_decimals : ParseError

-- `Display`
abbrev pub fmt : ParseError → Bytes
fmt (parse_float description) = description
fmt too_low_percent = codes "provided percent is less than 0.01%"
fmt too_high_percent = codes "provided percent is more than 10%"
fmt too_many_decimals = codes "provided percent could contain only 2 decimals"

-- `split_once(c)`, the part behind the first `c`
unfoldable pub split_once : ℕ → Bytes → Option Bytes
split_once c [] = none
split_once c (x ∷ s) = if x == c then some s else split_once c s

unfoldable pub validate_decimal_part : Bytes → Result ParseError (Unit {0})
validate_decimal_part percent = elim (split_once b'.' percent) [
  | none ↦ ok tt
  | some decimal ↦ if ltb 2 (length decimal) then err too_many_decimals else ok tt
]

unfoldable pub in_range : ℕ → Result ParseError (Option ℕ)
in_range result =
    if result == 0
    then ok none
    else if ltb result min_fee_percent
    then err too_low_percent
    else if ltb max_fee_percent result
    then err too_high_percent
    else ok (some result)

-- `f64::from_str(percent).map(|p| (p * 100.0) as u64).map_err(ParseError::ParseFloat)`
unfoldable pub hundredths : Float → Bytes → Result ParseError ℕ
hundredths float percent = elim (float.from_str percent) [
  | err description ↦ err (parse_float description)
  | ok p ↦ ok (float.to_u64 (float.mul p (float.of_u64 100)))
]

unfoldable pub parse_percent : Float → Option Bytes → Result ParseError (Option ℕ)
unfolding validate_decimal_part in_range hundredths
parse_percent float none = ok none
parse_percent float (some percent) = do
  _ ← validate_decimal_part percent
  result ← hundredths float percent
  in_range result
