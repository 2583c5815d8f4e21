-- ===== src/Protocol/Answers.antt =====
-- What one contract gets back from another (forwarder/src/lib.rs, fees/src/lib.rs).
use aurora_forwarder_contrac.Base.{ℕ, Bytes, Result, ok, err}
use aurora_forwarder_contrac.BTreeSet.{Ord}
use aurora_forwarder_contrac.Crates.{IoError}
use aurora_forwarder_contrac.Fees.{FeesCalculator, calculate_fees}
use aurora_forwarder_contrac.Forwarder.AccountId.{AccountId}
use aurora_forwarder_contrac.Forwarder.Params.{State}
use aurora_forwarder_contrac.Forwarder.Promise.{PromiseResult, successful, failed}

-- How the call of another contract ends for who asked.
abbrev pub result_of : Result IoError Bytes → PromiseResult
result_of (ok v) = successful v
result_of (err _) = failed

-- The fee for a token's forward.
abbrev pub fee_for :
    {Account : Type 0}
    → Ord Account
    → (AccountId → Account)
    → FeesCalculator Account
    → State
    → AccountId
    → ℕ
    → ℕ
fee_for o account fees s token amount =
    calculate_fees o fees amount (account token) (account s.target_network) s.target_address.raw
