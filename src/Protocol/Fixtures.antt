-- ===== src/Protocol/Fixtures.antt =====
-- A fees contract for the tests, and its fee for 1000.

use aurora_forwarder_contrac.Base.{ℕ, ◌≡◌, refl, true, some, [], ◌∷◌, Bytes, length, arith}
use aurora_forwarder_contrac.BTreeSet.{contains}
use aurora_forwarder_contrac.Fees.{FeesCalculator, calculate_fees}
use aurora_forwarder_contrac.Fees.Bounds.{calculate_fees-value}
use aurora_forwarder_contrac.Fees.Fixtures.{by_number}
use aurora_forwarder_contrac.Forwarder.Decimal.Print.{decimal, digits}
use aurora_forwarder_contrac.Base.{◌≢◌}
use aurora_forwarder_contrac.Crates.Reference.{reference, reference-IsDocumented}
use aurora_forwarder_contrac.Forwarder.Contract.{enter}
use aurora_forwarder_contrac.Forwarder.Contract.Destroy.{destroy-other}
use aurora_forwarder_contrac.Forwarder.Contract.Exports.{Entry}
use aurora_forwarder_contrac.Forwarder.Contract.Spec.{IsReady, IsReady-same}
use aurora_forwarder_contrac.Forwarder.Fixtures.{
  aurora, address, state_for, owner_near, usdt_near, usdt_near-IsAccount, forwarder_near, made,
}
use aurora_forwarder_contrac.Forwarder.Flow.Steps.{settle-err}
use aurora_forwarder_contrac.Forwarder.Host.Lawful.{machine-IsLawful}
use aurora_forwarder_contrac.Forwarder.Host.Machine.{Machine, machine}
use aurora_forwarder_contrac.Forwarder.Safety.{Call, receive, calls}
use aurora_forwarder_contrac.Forwarder.Flow.Token.{IsShort}

-- A fees contract that supports names of nine bytes at five percent.
abbrev pub five_percent : FeesCalculator ℕ
five_percent = record { percent = some 500; owner = 1; supported_tokens = 9 ∷ [] }

pub nine-supported : contains by_number five_percent.supported_tokens 9 ≡ true
unfolding contains
nine-supported = refl

pub fee-fifty :
    (network : ℕ) (address : Bytes)
    → calculate_fees by_number five_percent 1000 9 network address ≡ 50
fee-fifty network address =
    calculate_fees-value by_number five_percent 500 1000 9 network address refl nine-supported

pub decimal-short : (length (decimal 950) ≡ 3) × (length (decimal 50) ≡ 2)
unfolding decimal digits
decimal-short = (refl, refl)

pub fifty-IsShort : IsShort (state_for aurora) 1000 50
fifty-IsShort = record {
  transfer = omega (arith, decimal-short);
  fee_transfer = omega (arith, decimal-short);
}

-- A call that comes between: a stranger wants to destroy the forwarder.
abbrev pub stranger_destroys : Call
stranger_destroys = made Entry.destroy usdt_near 0 [] []

usdt-stranger : usdt_near.as_bytes ≢ owner_near.as_bytes
usdt-stranger h = cc

-- It leaves no trace.
pub stranger_refused :
    (m : Machine)
    → IsReady reference (state_for aurora) forwarder_near m
    → calls reference m (stranger_destroys ∷ []) ≡ m
unfolding calls
stranger_refused m safe =
    settle-err m (enter machine reference Entry.destroy (receive stranger_destroys m))
      (destroy-other machine-IsLawful reference-IsDocumented (receive stranger_destroys m)
        (IsReady-same refl refl safe) usdt_near-IsAccount refl usdt-stranger).0
