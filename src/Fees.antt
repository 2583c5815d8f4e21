-- ===== src/Fees.antt =====
-- fees/src/lib.rs: the fees contract. An entry point takes the predecessor's account and the state,
-- and returns the new state, or panics.
pub mod Percent
pub mod Bounds
pub mod Access
pub mod Tokens
pub mod Policy
pub mod Refinement
pub mod Interface
pub mod Fixtures
pub mod UnitTests
pub mod Tests
use aurora_forwarder_contrac.Base.{
  ℕ, ◌+◌, ◌*◌, ◌/◌, ◌^◌, ◌≤◌, ◌<◌, ◌≡◌, Bool, true, false, not, ◌&&◌, ◌||◌, Option, none, some,
  List, [], ◌∷◌, ◌++◌, Bytes, codes, ltb, leb, ◌==◌, if◌then◌else◌, Result, ok, err,
}
use aurora_forwarder_contrac.Base.Results.{◌>>=◌}
use aurora_forwarder_contrac.BTreeSet
use aurora_forwarder_contrac.BTreeSet.{Ord}
use aurora_forwarder_contrac.Fees.Percent.{Float, ParseError, fmt, parse_percent}
use Prim.Native.Nat.{Ordering}

abbrev pub default_percent : ℕ
default_percent = 500

-- `near_sdk::AccountId` is a parameter, of which only the order is used.
pub record FeesCalculator (Account : Type 0) : Type 0 where
  pub percent : Option ℕ
  pub owner : Account
  pub supported_tokens : List Account

pub data FeesPanic (Account : Type 0) : Type 0 where
  only_owner : FeesPanic Account
  parse_failed : ParseError → FeesPanic Account
  already_present : FeesPanic Account
  nothing_to_remove : Account → FeesPanic Account

-- The message of a panic on a text that is no percent.
unfoldable pub parse_failed_message : ParseError → Bytes
parse_failed_message e = codes "Couldn't parse percent: " ++ fmt e

-- `checked_mul(..).unwrap_or_default()` on u128.
abbrev pub mul_or_default : ℕ → ℕ → ℕ
mul_or_default a b = if ltb (a * b) (2 ^ 128) then a * b else 0

-- The fee where a percent is set and the token is supported; the percent is in hundredths.
unfoldable pub fee_of : ℕ → ℕ → ℕ
fee_of percent amount =
    let fee = mul_or_default percent amount / 10000 in if fee == 0 then 1 else fee

module _ {Account : Type 0} (o : Ord Account) where
  -- `==` on accounts
  abbrev pub same : Account → Account → Bool
  same a b = elim (o.cmp a b) [ Ordering.eq ↦ true | _ ↦ false ]

  unfoldable pub new : Account → List Account → FeesCalculator Account
  new predecessor tokens = record {
    percent = some default_percent;
    owner = predecessor;
    supported_tokens = BTreeSet.collect o [] tokens;
  }

  -- The match on the percent, after the test of the token.
  charge : Option ℕ → Bool → ℕ → ℕ
  charge none supported amount = 0
  charge (some percent) false amount = 0
  charge (some percent) true amount = fee_of percent amount

  -- The network and the address are not looked at.
  unfoldable pub calculate_fees : FeesCalculator Account → ℕ → Account → Account → Bytes → ℕ
  unfolding charge
  calculate_fees self amount token_id target_network target_address =
      charge self.percent (BTreeSet.contains o self.supported_tokens token_id) amount

  require : Bool → FeesPanic Account → Result (FeesPanic Account) (Unit {0})
  require true p = ok tt
  require false p = err p

  unfoldable pub set_fee_percent :
      Float
      → Account
      → FeesCalculator Account
      → Option Bytes
      → Result (FeesPanic Account) (FeesCalculator Account)
  unfolding require
  set_fee_percent float predecessor self percent = do
    _ ← require (same predecessor self.owner) only_owner
    elim (parse_percent float percent) [
      | ok value ↦ ok (record self { percent = value })
      | err e ↦ err (parse_failed e)
    ]

  unfoldable pub supported_tokens : FeesCalculator Account → List Account
  supported_tokens self = self.supported_tokens

  unfoldable pub add_supported_token :
      Account
      → FeesCalculator Account
      → Account
      → Result (FeesPanic Account) (FeesCalculator Account)
  unfolding require
  add_supported_token predecessor self token_id = do
    _ ← require (same predecessor self.owner) only_owner
    _ ← require (not (BTreeSet.contains o self.supported_tokens token_id)) already_present
    ok (record self { supported_tokens = BTreeSet.insert o self.supported_tokens token_id })

  unfoldable pub remove_supported_token :
      Account
      → FeesCalculator Account
      → Account
      → Result (FeesPanic Account) (FeesCalculator Account)
  unfolding require
  remove_supported_token predecessor self token_id = do
    _ ← require (same predecessor self.owner) only_owner
    _ ← require (BTreeSet.contains o self.supported_tokens token_id) (nothing_to_remove token_id)
    ok (record self { supported_tokens = BTreeSet.remove o self.supported_tokens token_id })

-- `get_fee_percent`
unfoldable pub get_fee_percent : {Account : Type 0} → Float → FeesCalculator Account → Option Bytes
get_fee_percent float self = elim self.percent [
  | none ↦ none
  | some v ↦ some (float.show_2 (float.div (float.of_u64 v) (float.of_u64 100)))
]
