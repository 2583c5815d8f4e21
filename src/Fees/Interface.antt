-- ===== src/Fees/Interface.antt =====
-- The borsh interface of `calculate_fees` (fees/src/lib.rs): its serializer attributes, and what a
-- forwarder gets back.
use aurora_forwarder_contrac.Base.{
  ℕ, ◌^◌, ◌<◌, ◌≡◌, refl, Bool, true, false, Option, none, some, [], ◌++◌, append-nil, Bytes,
  length, Result, ok, arith,
}
use aurora_forwarder_contrac.Base.Results.{◌>>=◌}
use aurora_forwarder_contrac.BTreeSet.{Ord}
use aurora_forwarder_contrac.Crates.{Crates, IsDocumented, IoError}
use aurora_forwarder_contrac.Fees.{FeesCalculator, calculate_fees, charge, fee_of, mul_or_default}
use aurora_forwarder_contrac.Forwarder.AccountId.{AccountId}
use aurora_forwarder_contrac.Forwarder.AccountId.Codec.{IsAccount, encoding}
use aurora_forwarder_contrac.Forwarder.Address.{IsAddress}
use aurora_forwarder_contrac.Forwarder.Params.{FeesParams, try_from_slice}
use aurora_forwarder_contrac.Forwarder.Params.RoundTrip.{try_from_slice-all}
use aurora_forwarder_contrac.Forwarder.Params.Layout.{fees_params_bytes}

-- The readers of near-sdk's `AccountId` and of aurora-engine-types' `Address`.
pub record Readers (Account : Type 0) : Type 0 where
  pub read_account : Bytes → Result IoError (Account × Bytes)
  pub read_address : Bytes → Result IoError (Bytes × Bytes)

-- Their documented behaviour: an account is the borsh string of its name, and an address its twenty
-- bytes.
pub record AreDocumented {Account : Type 0} (lib : Crates) (r : Readers Account)
    (account : AccountId → Account) : Type 0 where
  pub account_back :
      (id : AccountId) (rest : Bytes)
      → IsAccount id
      → r.read_account (encoding lib id ++ rest) ≡ ok (account id, rest)
  pub address_back :
      (raw rest : Bytes) → length raw ≡ 20 → r.read_address (raw ++ rest) ≡ ok (raw, rest)

-- The arguments of `calculate_fees` in the order of their declaration.
pub record FeesArguments (Account : Type 0) : Type 0 where
  pub amount : ℕ
  pub token_id : Account
  pub target_network : Account
  pub target_address : Bytes

module _ {Account : Type 0} (lib : Crates) (r : Readers Account) where
  unfoldable pub read_arguments : Bytes → Result IoError (FeesArguments Account × Bytes)
  read_arguments s = do
    (amount, s) ← lib.read_u128 s
    (token, s) ← r.read_account s
    (network, s) ← r.read_account s
    (address, s) ← r.read_address s
    ok (
      record {
        amount = amount;
        token_id = token;
        target_network = network;
        target_address = address;
      },
      s,
    )

  -- The call with its arguments and its result in borsh.
  unfoldable pub calculate_fees_call :
      Ord Account → FeesCalculator Account → Bytes → Result IoError Bytes
  calculate_fees_call o self input = do
    a ← try_from_slice read_arguments input
    ok (
        lib.write_u128
          (calculate_fees o self a.amount a.token_id a.target_network a.target_address))

fee_of-lt : (percent amount : ℕ) → fee_of percent amount < 2 ^ 128
unfolding fee_of
fee_of-lt percent amount =
    let fits : mul_or_default percent amount < 2 ^ 128 = ground arith in ground (arith, fits)

module _ {Account : Type 0} (o : Ord Account) where
  charge-lt :
      (percent : Option ℕ) (supported : Bool) (amount : ℕ)
      → charge o percent supported amount < 2 ^ 128
  unfolding charge
  charge-lt none supported amount = omega arith
  charge-lt (some percent) false amount = omega arith
  charge-lt (some percent) true amount = fee_of-lt percent amount

  -- Every fee is a u128.
  pub calculate_fees-lt :
      (self : FeesCalculator Account) (amount : ℕ) (token_id target_network : Account)
      (target_address : Bytes)
      → calculate_fees o self amount token_id target_network target_address < 2 ^ 128
  unfolding calculate_fees
  calculate_fees-lt self amount token_id target_network target_address =
      charge-lt self.percent _ amount

  module _ {lib : Crates} (doc : IsDocumented lib) {r : Readers Account}
      {account : AccountId → Account} (sdk : AreDocumented lib r account) where
    arguments_back :
        (p : FeesParams)
        → p.amount < 2 ^ 128
        → IsAccount p.token_id
        → IsAccount p.target_network
        → IsAddress p.target_address
        → read_arguments lib r (fees_params_bytes lib p)
          ≡ ok (
            record {
              amount = p.amount;
              token_id = account p.token_id;
              target_network = account p.target_network;
              target_address = p.target_address.raw;
            },
            [],
          )
    unfolding read_arguments
    arguments_back p fits token network address = rw (
      doc.u128_back p.amount _ fits,
      sdk.account_back p.token_id _ token,
      sdk.account_back p.target_network _ network,
      (rw append-nil at (sdk.address_back p.target_address.raw [] address)),
    )

    -- For a u128, valid names and an address of twenty bytes, the fee query that the forwarder writes
    -- is read by the fees contract as the same amount, token, network and address, and its answer is
    -- the fee for them as a u128.
    pub calculate_fees_call-params :
        (self : FeesCalculator Account) (p : FeesParams)
        → p.amount < 2 ^ 128
        → IsAccount p.token_id
        → IsAccount p.target_network
        → IsAddress p.target_address
        → calculate_fees_call lib r o self (fees_params_bytes lib p)
          ≡ ok (
              lib.write_u128 (
                calculate_fees o self p.amount
                  (account p.token_id)
                  (account p.target_network)
                  p.target_address.raw))
    unfolding calculate_fees_call
    calculate_fees_call-params self p fits token network address =
        rw
          (try_from_slice-all (read_arguments lib r) (fees_params_bytes lib p)
            (arguments_back p fits token network address))
          refl
