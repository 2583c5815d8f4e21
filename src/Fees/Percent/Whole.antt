-- ===== src/Fees/Percent/Whole.antt =====
-- A percent that is a whole number (fees/src/lib.rs): how it is set and shown.
use aurora_forwarder_contrac.Base.{
  ℕ, ◌*◌, ◌^◌, ◌≤◌, ◌<◌, ◌≡◌, ◌∙◌, refl, ap, Option, true, none, some, [], ◌∷◌, ◌++◌, Bytes, codes,
  All, Result, ok, err, arith,
}
use aurora_forwarder_contrac.BTreeSet.{Ord}
use aurora_forwarder_contrac.BTreeSet.Laws.{cmp_refl}
use aurora_forwarder_contrac.Fees.{
  FeesCalculator, FeesPanic, parse_failed, same, set_fee_percent, get_fee_percent,
}
use aurora_forwarder_contrac.Fees.Percent.{
  Float, ParseError, too_high_percent, split_once, validate_decimal_part, in_range, hundredths,
  parse_percent,
}
use aurora_forwarder_contrac.Forwarder.Decimal.Print.{decimal, decimal_sound, IsDigit}

-- The documented behaviour of `f64` on whole numbers below 2 ^ 53, which it holds exactly: reading,
-- products, quotients without a rest, the cast to u64, and two decimals.
pub record IsExact (float : Float) : Type 0 where
  pub reads : (n : ℕ) → n < 2 ^ 53 → float.from_str (decimal n) ≡ ok (float.of_u64 n)
  pub product :
      (a b : ℕ)
      → a < 2 ^ 53
      → b < 2 ^ 53
      → a * b < 2 ^ 53
      → float.mul (float.of_u64 a) (float.of_u64 b) ≡ float.of_u64 (a * b)
  pub quotient :
      (a b : ℕ)
      → a * b < 2 ^ 53
      → 0 < b
      → b < 2 ^ 53
      → float.div (float.of_u64 (a * b)) (float.of_u64 b) ≡ float.of_u64 a
  pub casts : (n : ℕ) → n < 2 ^ 53 → float.to_u64 (float.of_u64 n) ≡ n
  pub shows : (n : ℕ) → n < 2 ^ 53 → float.show_2 (float.of_u64 n) ≡ decimal n ++ codes ".00"

no_point : (s : Bytes) → All IsDigit s → split_once b'.' s ≡ none
unfolding split_once
no_point [] h = refl
no_point (c ∷ s) (digit, h) = ground (arith, no_point s h)

-- What `set_fee_percent` does with the answer of the parser.
abbrev set_to :
    {Account : Type 0}
    → FeesCalculator Account
    → Result ParseError (Option ℕ)
    → Result (FeesPanic Account) (FeesCalculator Account)
set_to self (ok value) = ok (record self { percent = value })
set_to self (err e) = err (parse_failed e)

module _ {float : Float} (exact : IsExact float) (n : ℕ) (small : n < 2 ^ 46) where
  validate_decimal_part-whole : validate_decimal_part (decimal n) ≡ ok tt
  unfolding validate_decimal_part
  validate_decimal_part-whole =
      let (_, all_digits, _, _, _) = decimal_sound n (omega (arith, small)) in
      ground (arith, no_point (decimal n) all_digits)

  hundredths-whole : hundredths float (decimal n) ≡ ok (n * 100)
  unfolding hundredths
  hundredths-whole =
      rw
        (
          exact.reads n (omega (arith, small)),
          hundredths,
          exact.product n 100 (omega (arith, small)) (omega arith) (omega (arith, small)),
          exact.casts (n * 100) (omega (arith, small)),
        )
        refl

  -- A whole number is in hundredths a hundred times as much.
  parse_percent-whole : parse_percent float (some (decimal n)) ≡ in_range (n * 100)
  unfolding parse_percent
  parse_percent-whole = rw (validate_decimal_part-whole, hundredths-whole, parse_percent) refl

  set_percent-whole :
      {Account : Type 0} (o : Ord Account) (self : FeesCalculator Account)
      {r : Result ParseError (Option ℕ)}
      → in_range (n * 100) ≡ r
      → set_fee_percent o float self.owner self (some (decimal n)) ≡ set_to self r
  unfolding set_fee_percent
  set_percent-whole o self e =
      let owner : same o self.owner self.owner ≡ true = ground (arith, cmp_refl o self.owner) in
      rw (owner, parse_percent-whole, e, set_fee_percent) refl

  -- A whole percent. On floats that hold whole numbers exactly, the owner's call of
  -- `set_fee_percent` with the digits of a whole number below 2 ^ 46 takes the fee off for zero, sets
  -- a hundred times the number for one to ten, which `get_fee_percent` then shows as the number with
  -- two zeros behind the point, and is refused as too high for more.
  pub set_fee_percent-whole :
      {Account : Type 0} (o : Ord Account) (self : FeesCalculator Account)
      → let result = set_fee_percent o float self.owner self (some (decimal n)) in
        (n ≡ 0 → result ≡ ok (record self { percent = none }))
        × (1 ≤ n
            → n ≤ 10
            → (result ≡ ok (record self { percent = some (n * 100) }))
              × (get_fee_percent float (record self { percent = some (n * 100) })
                  ≡ some (decimal n ++ codes ".00")))
        × (10 < n → result ≡ err (parse_failed too_high_percent))
  unfolding get_fee_percent in_range
  set_fee_percent-whole o self = (
    λ zero_given. set_percent-whole o self {r = ok none} (ground (arith, zero_given)),
    λ least most. (
      set_percent-whole o self {r = ok (some (n * 100))} (ground (arith, least, most)),
      ap some (
          ap float.show_2 (exact.quotient n 100 (omega (arith, small)) (omega arith) (omega arith))
          ∙ exact.shows n (omega (arith, small))),
    ),
    λ high. set_percent-whole o self {r = err too_high_percent} (ground (arith, high)),
  )
