-- ===== src/Fees/UnitTests.antt =====
-- The unit tests of the fees contract (fees/src/lib.rs). In place of f64 there are exact decimals,
-- and in place of accounts numbers; the test account that calls is also the owner.
use aurora_forwarder_contrac.Base.{
  ℕ, ◌+◌, ◌-◌, ◌*◌, ◌/◌, ◌%◌, ◌≡◌, refl, Bool, true, false, ◌&&◌, ◌||◌, Option, none, some, [], ◌∷◌,
  ◌++◌, Bytes, bytes_eq, codes, ltb, ◌==◌, if◌then◌else◌, Result, ok, err,
}
use aurora_forwarder_contrac.Base.Results.{◌>>=◌}
use aurora_forwarder_contrac.BTreeSet
use aurora_forwarder_contrac.Fees.{
  FeesCalculator, FeesPanic, parse_failed, parse_failed_message, new, calculate_fees, fee_of,
  set_fee_percent, get_fee_percent, add_supported_token, remove_supported_token,
}
use aurora_forwarder_contrac.Fees.Fixtures.{by_number, saturate, saturate-lt}
use aurora_forwarder_contrac.Fees.Percent.{
  Float, ParseError, parse_float, too_high_percent, too_many_decimals, split_once,
  validate_decimal_part, in_range, hundredths, parse_percent,
}
use aurora_forwarder_contrac.Forwarder.Decimal.Print.{decimal, digits}

-- A decimal text as numerator and denominator, with what has been read so far.
unfoldable fraction : Bool → ℕ → ℕ → Bytes → Result Bytes (ℕ × ℕ)
fraction point n d [] = ok (n, d)
fraction point n d (c ∷ s) = elim (c == b'.') [
  | true ↦ fraction true n d s
  | false ↦ elim (ltb c b'0' || ltb b'9' c) [
    | true ↦ err (codes "invalid float literal")
    | false ↦ fraction point (10 * n + (c - b'0')) (if point then 10 * d else d) s
  ]
]

abbrev two_places : ℕ → Bytes
two_places h = decimal (h / 100) ++ b'.' ∷ (b'0' + (h % 100) / 10) ∷ (b'0' + h % 10) ∷ []

abbrev exact : Float
unfolding fraction
exact = record {
  F = ℕ × ℕ;
  from_str = fraction false 0 1;
  of_u64 = λ n. (n, 1);
  mul = λ a b. (a.0 * b.0, a.1 * b.1);
  div = λ a b. (a.0 * b.1, a.1 * b.0);
  to_u64 = λ a. saturate (a.0 / a.1);
  to_u64_fits = λ a. saturate-lt (a.0 / a.1);
  show_2 = λ a. two_places ((a.0 * 100) / a.1);
}

-- `assert_eq!` on a percent
abbrev is_percent : Result ParseError (Option ℕ) → Option ℕ → Bool
is_percent (ok none) none = true
is_percent (ok (some a)) (some b) = a == b
is_percent _ _ = false

-- `matches!` on an error
abbrev is_too_many_decimals : Result ParseError (Option ℕ) → Bool
is_too_many_decimals (err too_many_decimals) = true
is_too_many_decimals _ = false

abbrev is_too_high : Result ParseError (Option ℕ) → Bool
is_too_high (err too_high_percent) = true
is_too_high _ = false

abbrev is_parse_float : Result ParseError (Option ℕ) → Bool
is_parse_float (err (parse_float _)) = true
is_parse_float _ = false

abbrev parse : Bytes → Result ParseError (Option ℕ)
parse s = parse_percent exact (some s)

abbrev test_parse_percent : Bool
test_parse_percent =
    is_percent (parse_percent exact none) none
    && (is_percent (parse (codes "0")) none
        && (is_percent (parse (codes "10")) (some 1000)
            && (is_percent (parse (codes "2")) (some 200)
                && (is_percent (parse (codes "0.25")) (some 25)
                    && (is_percent (parse (codes "0.01")) (some 1)
                        && (is_too_many_decimals (parse (codes "0.015"))
                            && (is_too_many_decimals (parse (codes "0.009"))
                                && (is_too_high (parse (codes "10.1"))
                                    && is_parse_float (parse (codes "hello"))))))))))

test_parse_percent_lem : test_parse_percent ≡ true
unfolding parse_percent validate_decimal_part split_once hundredths in_range fraction
test_parse_percent_lem = refl

abbrev owner : ℕ
owner = 1

abbrev aurora : ℕ
aurora = 6

abbrev usdt : ℕ
usdt = 9

-- `calculate_fees` on the default address.
abbrev fee : FeesCalculator ℕ → ℕ → ℕ
fee contract amount = calculate_fees by_number contract amount usdt aurora []

abbrev test_check_supported_tokens : Result (FeesPanic ℕ) Bool
test_check_supported_tokens = do
  let contract = new by_number owner []
  let unsupported = fee contract 1000 == 0
  contract ← add_supported_token by_number owner contract usdt
  let supported = fee contract 1000 == 50
  contract ← remove_supported_token by_number owner contract usdt
  let removed = fee contract 1000 == 0
  ok (unsupported && (supported && removed))

test_check_supported_tokens_lem : test_check_supported_tokens ≡ ok true
unfolding new calculate_fees fee_of add_supported_token remove_supported_token BTreeSet.contains
    BTreeSet.insert BTreeSet.remove BTreeSet.collect
test_check_supported_tokens_lem = refl

abbrev test_fee_is_never_rounded_to_zero_for_small_numbers : Result (FeesPanic ℕ) Bool
test_fee_is_never_rounded_to_zero_for_small_numbers = do
  let contract = new by_number owner []
  contract ← set_fee_percent by_number exact owner contract (some (codes "5"))
  contract ← add_supported_token by_number owner contract usdt
  ok (fee contract 1 == 1)

test_fee_is_never_rounded_to_zero_for_small_numbers_lem :
    test_fee_is_never_rounded_to_zero_for_small_numbers ≡ ok true
unfolding new calculate_fees fee_of add_supported_token set_fee_percent parse_percent
    validate_decimal_part split_once hundredths in_range fraction BTreeSet.contains BTreeSet.insert
    BTreeSet.collect
test_fee_is_never_rounded_to_zero_for_small_numbers_lem = refl

abbrev test_check_set_fee : Result (FeesPanic ℕ) Bool
test_check_set_fee = do
  let contract = new by_number owner (usdt ∷ [])
  let default_fee = fee contract 1000 == 50
  contract ← set_fee_percent by_number exact owner contract (some (codes "0"))
  let no_fee = fee contract 1000 == 0
  contract ← set_fee_percent by_number exact owner contract (some (codes "2.5"))
  let half = fee contract 1000 == 25
  ok (default_fee && (no_fee && half))

test_check_set_fee_lem : test_check_set_fee ≡ ok true
unfolding new calculate_fees fee_of set_fee_percent parse_percent validate_decimal_part split_once
    hundredths in_range fraction BTreeSet.contains BTreeSet.insert BTreeSet.collect
test_check_set_fee_lem = refl

-- `assert_eq!` on a percent's text
abbrev is_shown : Option Bytes → Option Bytes → Bool
is_shown none none = true
is_shown (some a) (some b) = bytes_eq a b
is_shown _ _ = false

abbrev test_set_percent : Result (FeesPanic ℕ) Bool
test_set_percent = do
  let contract = new by_number owner []
  let first = is_shown (get_fee_percent exact contract) (some (codes "5.00"))
  contract ← set_fee_percent by_number exact owner contract (some (codes "6"))
  let second = is_shown (get_fee_percent exact contract) (some (codes "6.00"))
  contract ← set_fee_percent by_number exact owner contract (some (codes "7.5"))
  let third = is_shown (get_fee_percent exact contract) (some (codes "7.50"))
  contract ← set_fee_percent by_number exact owner contract (some (codes "0"))
  let fourth = is_shown (get_fee_percent exact contract) none
  ok (first && (second && (third && fourth)))

test_set_percent_lem : test_set_percent ≡ ok true
unfolding new set_fee_percent get_fee_percent parse_percent validate_decimal_part split_once
    hundredths in_range fraction bytes_eq decimal digits
test_set_percent_lem = refl

-- `should_panic(expected = ...)` on a percent's text
abbrev panics_with : Bytes → Result (FeesPanic ℕ) (FeesCalculator ℕ) → Bool
panics_with message (err (parse_failed e)) = bytes_eq (parse_failed_message e) message
panics_with message _ = false

abbrev test_set_percent_with_many_decimals : Bool
test_set_percent_with_many_decimals =
    panics_with (codes "Couldn't parse percent: provided percent could contain only 2 decimals")
      (set_fee_percent by_number exact owner (new by_number owner []) (some (codes "6.123")))

test_set_percent_with_many_decimals_lem : test_set_percent_with_many_decimals ≡ true
unfolding new set_fee_percent parse_percent validate_decimal_part split_once parse_failed_message
    bytes_eq
test_set_percent_with_many_decimals_lem = refl

abbrev test_set_too_high_percents : Bool
test_set_too_high_percents =
    panics_with (codes "Couldn't parse percent: provided percent is more than 10%")
      (set_fee_percent by_number exact owner (new by_number owner []) (some (codes "12.12")))

test_set_too_high_percents_lem : test_set_too_high_percents ≡ true
unfolding new set_fee_percent parse_percent validate_decimal_part split_once hundredths in_range
    fraction parse_failed_message bytes_eq
test_set_too_high_percents_lem = refl
