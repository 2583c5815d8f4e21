-- ===== src/Fees/Percent/Accepts.antt =====
-- What `parse_percent` can answer (fees/src/lib.rs).
use aurora_forwarder_contrac.Base.{
  ℕ, ◌≤◌, ◌≡◌, ◌≢◌, Bool, true, false, Option, none, some, Bytes, length, ltb, Result, ok, err,
  arith, Bool-cases, inl, inr,
}
use aurora_forwarder_contrac.Base.Results.{◌>>=◌}
use aurora_forwarder_contrac.Fees.Percent.{
  Float, ParseError, parse_float, too_low_percent, too_many_decimals, split_once,
  validate_decimal_part, in_range, hundredths, parse_percent,
}

-- A percent that the contract may hold: none, or from 0.01 % to 10 % in hundredths.
abbrev pub IsPercent : Option ℕ → Type 0
IsPercent none = Unit
IsPercent (some n) = (1 ≤ n) × (n ≤ 1000)

-- Every answer but a refusal that the percent is too low.
abbrev pub IsAnswer : Result ParseError (Option ℕ) → Type 0
IsAnswer (ok p) = IsPercent p
IsAnswer (err e) = e ≢ too_low_percent

in_range-IsAnswer : (n : ℕ) → IsAnswer (in_range n)
unfolding in_range
in_range-IsAnswer n = ground arith

-- More than two characters behind the point.
abbrev pub too_long : Bytes → Bool
too_long s = elim (split_once b'.' s) [ none ↦ false | some decimal ↦ ltb 2 (length decimal) ]

validate-too_long :
    (s : Bytes) → too_long s ≡ true → validate_decimal_part s ≡ err too_many_decimals
unfolding validate_decimal_part
validate-too_long s h = ground (arith, h)

validate-fits : (s : Bytes) → too_long s ≡ false → validate_decimal_part s ≡ ok tt
unfolding validate_decimal_part
validate-fits s h = ground (arith, h)

hundredths-IsAnswer : (float : Float) (s : Bytes) → IsAnswer (hundredths float s >>= in_range)
unfolding hundredths
hundredths-IsAnswer float s = parsed (float.from_str s)
  where
    parsed :
        (x : Result Bytes float.F)
        → IsAnswer (
            (elim x [
              | err description ↦ err (parse_float description)
              | ok p ↦ ok (float.to_u64 (float.mul p (float.of_u64 100)))
            ])
            >>= in_range)
    parsed (err description) = ground arith
    parsed (ok p) = in_range-IsAnswer (float.to_u64 (float.mul p (float.of_u64 100)))

-- `parse_percent` either refuses, and never with "too low", or it answers no percent or one from
-- 1 to 1000 hundredths.
pub parse_percent-IsAnswer :
    (float : Float) (percent : Option Bytes) → IsAnswer (parse_percent float percent)
unfolding parse_percent
parse_percent-IsAnswer float none = tt
parse_percent-IsAnswer float (some s) = elim (Bool-cases (too_long s)) [
  | inl h ↦ rw (validate-too_long s h) (ground arith)
  | inr h ↦ rw (validate-fits s h) (hundredths-IsAnswer float s)
]
