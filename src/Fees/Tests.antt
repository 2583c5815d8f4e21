-- ===== src/Fees/Tests.antt =====
-- The theorems on the fees contract at concrete states, with numbers as accounts.

use native.Mathlib.Nat.{mul-div_cancel}
use aurora_forwarder_contrac.Forwarder.Decimal.Print.{value_from, decimal, decimal_sound}
use aurora_forwarder_contrac.Fees.Percent.Whole.{IsExact, set_fee_percent-whole}
use aurora_forwarder_contrac.Base.{
  ℕ, ◌*◌, ◌/◌, ◌^◌, ◌≤◌, ◌≡◌, refl, true, false, ◌||◌, some, [], ◌∷◌, codes, ltb, leb,
  if◌then◌else◌, ok, err, arith, ap, ◌++◌, none, ◌<◌,
}
use aurora_forwarder_contrac.BTreeSet.{contains}
use aurora_forwarder_contrac.Fees.{
  new, calculate_fees, set_fee_percent, get_fee_percent, parse_failed,
}
use aurora_forwarder_contrac.Fees.Access.{
  fee_percent, add_token, remove_token, changes, IsValid, changes-new,
}
use aurora_forwarder_contrac.Fees.Bounds.{calculate_fees-bounds, calculate_fees-value}
use aurora_forwarder_contrac.Fees.Policy.{view, first_policy, policy_changes, policy_fee}
use aurora_forwarder_contrac.Fees.Refinement.{changes-refine_policy}
use aurora_forwarder_contrac.Fees.Access.{Change}
use aurora_forwarder_contrac.Base.{List, Bytes}
use aurora_forwarder_contrac.Fees.Percent.{parse_percent, Float, too_high_percent}
use aurora_forwarder_contrac.Fees.Percent.Accepts.{IsAnswer, parse_percent-IsAnswer}
use aurora_forwarder_contrac.Fees.Tokens.{supports}
use aurora_forwarder_contrac.Fees.Fixtures.{
  by_number, whole, one_token, readers, readers-AreDocumented, saturate, saturate-lt,
}
use aurora_forwarder_contrac.Fees.Interface.{calculate_fees_call, calculate_fees_call-params}
use aurora_forwarder_contrac.Crates.Reference.{reference, reference-IsDocumented}
use aurora_forwarder_contrac.Forwarder.Fixtures.{
  address, usdt_near, aurora, usdt_near-IsAccount, aurora-IsAccount,
}
use aurora_forwarder_contrac.Forwarder.Params.Layout.{fees_params_bytes}

one_token-supports : supports by_number one_token 7 ≡ true
unfolding contains
one_token-supports = refl

one_token-missing : supports by_number one_token 9 ≡ false
unfolding contains
one_token-missing = refl

calculate_fees-bounds_example :
    (1 ≤ calculate_fees by_number one_token 1000 7 3 [])
    × (calculate_fees by_number one_token 1000 7 3 [] ≤ 1000)
calculate_fees-bounds_example =
    calculate_fees-bounds by_number one_token 500 1000 7 3 [] refl (omega arith) one_token-supports
      (omega arith)

calculate_fees-value_example :
    calculate_fees by_number one_token 1000 7 3 []
    ≡ (if ltb (500 * 1000) 10000 || leb (2 ^ 128) (500 * 1000) then 1 else (500 * 1000) / 10000)
calculate_fees-value_example =
    calculate_fees-value by_number one_token 500 1000 7 3 [] refl one_token-supports

changes-new_example :
    IsValid by_number whole (
      changes by_number whole
        (new by_number 1 (7 ∷ 4 ∷ 7 ∷ []))
        ((1, fee_percent (some (codes "2"))) ∷ (5, add_token 8) ∷ (1, remove_token 4) ∷ []))
    × ((changes by_number whole
          (new by_number 1 (7 ∷ 4 ∷ 7 ∷ []))
          ((1, fee_percent (some (codes "2"))) ∷ (5, add_token 8) ∷ (1, remove_token 4) ∷ [])).owner
        ≡ 1)
changes-new_example =
    changes-new by_number whole 1 (7 ∷ 4 ∷ 7 ∷ [])
      ((1, fee_percent (some (codes "2"))) ∷ (5, add_token 8) ∷ (1, remove_token 4) ∷ [])

parse_percent-IsAnswer_example : IsAnswer (parse_percent whole (some (codes "7")))
parse_percent-IsAnswer_example = parse_percent-IsAnswer whole (some (codes "7"))

calculate_fees_call-params_example :
    calculate_fees_call reference readers by_number one_token (
      fees_params_bytes reference (record {
        amount = 1000;
        token_id = usdt_near;
        target_network = aurora;
        target_address = address;
      }))
    ≡ ok (reference.write_u128 (calculate_fees by_number one_token 1000 9 6 address.raw))
calculate_fees_call-params_example =
    calculate_fees_call-params by_number reference-IsDocumented readers-AreDocumented one_token _
      (omega arith) usdt_near-IsAccount aurora-IsAccount refl

-- The owner sets a percent, a stranger tries to add a token, and the owner removes one.
abbrev some_changes : List (ℕ × Change ℕ)
some_changes = (1, fee_percent (some (codes "2"))) ∷ (5, add_token 8) ∷ (1, remove_token 4) ∷ []

changes-refine_policy_example :
    let self = changes by_number whole (new by_number 1 (7 ∷ 4 ∷ 7 ∷ [])) some_changes in
    let policy =
      policy_changes by_number whole (first_policy by_number 1 (7 ∷ 4 ∷ 7 ∷ [])) some_changes in
    (view by_number self ≡ policy)
    × ((amount : ℕ) (token network : ℕ) (address : Bytes)
        → calculate_fees by_number self amount token network address
          ≡ policy_fee by_number policy amount token)
changes-refine_policy_example =
    changes-refine_policy by_number whole 1 (7 ∷ 4 ∷ 7 ∷ []) some_changes

-- Whole numbers in place of floats, which hold them exactly.
abbrev numbers : Float
numbers = record {
  F = ℕ;
  from_str = λ s. ok (value_from 0 s);
  of_u64 = λ n. n;
  mul = λ a b. a * b;
  div = λ a b. a / b;
  to_u64 = saturate;
  to_u64_fits = saturate-lt;
  show_2 = λ n. decimal n ++ codes ".00";
}

numbers-IsExact : IsExact numbers
numbers-IsExact = record {
  reads = λ n small. ap ok (decimal_sound n (omega (arith, small))).0;
  product = λ a b _ _ _. refl;
  quotient = λ a b _ positive _. mul-div_cancel a positive;
  casts = λ n small. ground (arith, small);
  shows = λ n _. refl;
}

set_fee_percent-whole_example :
    let result = set_fee_percent by_number numbers 1 one_token (some (decimal 7)) in
    (◌≡◌ {A = ℕ} 7 0 → result ≡ ok (record one_token { percent = none }))
    × (1 ≤ 7
        → 7 ≤ 10
        → (result ≡ ok (record one_token { percent = some 700 }))
          × (get_fee_percent numbers (record one_token { percent = some 700 })
              ≡ some (decimal 7 ++ codes ".00")))
    × (10 < 7 → result ≡ err (parse_failed too_high_percent))
set_fee_percent-whole_example =
    set_fee_percent-whole numbers-IsExact 7 (omega arith) by_number one_token
