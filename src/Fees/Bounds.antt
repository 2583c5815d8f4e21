-- ===== src/Fees/Bounds.antt =====
-- The bounds of the fee that the fees contract computes (fees/src/lib.rs).
use aurora_forwarder_contrac.Base.{
  ℕ, ◌*◌, ◌/◌, ◌^◌, ◌≤◌, ◌≡◌, ◌⊎◌, inl, inr, refl, Bool, true, false, Option, none, some, Bytes,
  ltb, leb, ◌||◌, if◌then◌else◌, arith,
}
use aurora_forwarder_contrac.BTreeSet
use aurora_forwarder_contrac.BTreeSet.{Ord}
use aurora_forwarder_contrac.Fees.{FeesCalculator, fee_of, charge, calculate_fees, mul_or_default}

-- A tenth at most.
tenth : (x percent amount : ℕ) → percent ≤ 1000 → x ≤ percent * amount → x / 10000 ≤ amount / 10
tenth x percent amount p h =
    let most : percent * amount ≤ 1000 * amount = grind (arith, p) in omega (arith, h, most)

mul_or_default-le : (a b : ℕ) → mul_or_default a b ≤ a * b
mul_or_default-le a b = ground arith

fee_of-bounds :
    (percent amount : ℕ)
    → percent ≤ 1000
    → 1 ≤ amount
    → (1 ≤ fee_of percent amount) × (fee_of percent amount ≤ amount)
unfolding fee_of
fee_of-bounds percent amount p a =
    let most : mul_or_default percent amount / 10000 ≤ amount / 10 =
      tenth (mul_or_default percent amount) percent amount p (mul_or_default-le percent amount) in
    ground (arith, most)

module _ {Account : Type 0} (o : Ord Account) where
  -- With a percent of at most 1000 and a supported token, the fee of an amount that is not 0 is at
  -- least 1 and at most the amount.
  pub calculate_fees-bounds :
      (self : FeesCalculator Account) (percent amount : ℕ) (token_id target_network : Account)
      (target_address : Bytes)
      → self.percent ≡ some percent
      → percent ≤ 1000
      → BTreeSet.contains o self.supported_tokens token_id ≡ true
      → 1 ≤ amount
      → (1 ≤ calculate_fees o self amount token_id target_network target_address)
        × (calculate_fees o self amount token_id target_network target_address ≤ amount)
  unfolding calculate_fees charge
  calculate_fees-bounds self percent amount token_id target_network target_address set p has a =
      rw set (rw has (fee_of-bounds percent amount p a))

  -- With a percent and a supported token, the fee is 1 where the product of the percent and the
  -- amount is below 10000 or does not fit 128 bits, and otherwise the product divided by 10000,
  -- rounded down.
  pub calculate_fees-value :
      (self : FeesCalculator Account) (percent amount : ℕ) (token_id target_network : Account)
      (target_address : Bytes)
      → self.percent ≡ some percent
      → BTreeSet.contains o self.supported_tokens token_id ≡ true
      → calculate_fees o self amount token_id target_network target_address ≡ (
          if ltb (percent * amount) 10000 || leb (2 ^ 128) (percent * amount)
          then 1
          else (percent * amount) / 10000)
  unfolding calculate_fees charge fee_of
  calculate_fees-value self percent amount token_id target_network target_address set has =
      rw set (rw has (ground arith))

  charge-none : (supported : Bool) (amount : ℕ) → charge o none supported amount ≡ 0
  unfolding charge
  charge-none supported amount = refl

  charge-false : (percent : Option ℕ) (amount : ℕ) → charge o percent false amount ≡ 0
  unfolding charge
  charge-false none amount = refl
  charge-false (some _) amount = refl

  -- Without a percent, or for a token that is not supported, there is no fee.
  pub calculate_fees-free :
      (self : FeesCalculator Account) (amount : ℕ) (token_id target_network : Account)
      (target_address : Bytes)
      → (self.percent ≡ none) ⊎ (BTreeSet.contains o self.supported_tokens token_id ≡ false)
      → calculate_fees o self amount token_id target_network target_address ≡ 0
  unfolding calculate_fees
  calculate_fees-free self amount token_id target_network target_address (inl unset) =
      rw unset (charge-none (BTreeSet.contains o self.supported_tokens token_id) amount)
  calculate_fees-free self amount token_id target_network target_address (inr missing) =
      rw missing (charge-false self.percent amount)
