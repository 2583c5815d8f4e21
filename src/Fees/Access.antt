-- ===== src/Fees/Access.antt =====
-- Who may change the state of the fees contract, and what stays true of it (fees/src/lib.rs).
use aurora_forwarder_contrac.Base.{
  ℕ, ◌≡◌, ◌≢◌, refl, Bool, true, false, not, Option, List, [], ◌∷◌, Bytes, Result, ok, err, arith,
}
use aurora_forwarder_contrac.Base.Results.{◌>>=◌}
use aurora_forwarder_contrac.BTreeSet
use aurora_forwarder_contrac.BTreeSet.{Ord, IsSorted}
use aurora_forwarder_contrac.BTreeSet.Laws.{insert-IsSorted, remove-IsSorted, collect-IsSorted}
use aurora_forwarder_contrac.Fees.{
  FeesCalculator, FeesPanic, only_owner, parse_failed, already_present, nothing_to_remove, same,
  new, require, set_fee_percent, add_supported_token, remove_supported_token,
}
use aurora_forwarder_contrac.Fees.Percent.{Float, ParseError, parse_percent}
use aurora_forwarder_contrac.Fees.Percent.Accepts.{IsPercent, IsAnswer, parse_percent-IsAnswer}

-- The calls that change the state, with their arguments.
pub data Change (Account : Type 0) : Type 0 where
  fee_percent : Option Bytes → Change Account
  add_token : Account → Change Account
  remove_token : Account → Change Account

module _ {Account : Type 0} (o : Ord Account) (float : Float) where
  -- The entry point of a change.
  abbrev pub change :
      Account
      → FeesCalculator Account
      → Change Account
      → Result (FeesPanic Account) (FeesCalculator Account)
  change predecessor self (fee_percent p) = set_fee_percent o float predecessor self p
  change predecessor self (add_token t) = add_supported_token o predecessor self t
  change predecessor self (remove_token t) = remove_supported_token o predecessor self t

  -- The state after a call, with what it leaves where it panics.
  abbrev pub kept :
      FeesCalculator Account
      → Result (FeesPanic Account) (FeesCalculator Account)
      → FeesCalculator Account
  kept self (ok self') = self'
  kept self (err _) = self

  -- A list of calls, each with its predecessor; a call that panics leaves the state as it was.
  abbrev pub changes :
      FeesCalculator Account → List (Account × Change Account) → FeesCalculator Account
  changes self [] = self
  changes self ((predecessor, c) ∷ cs) = changes (kept self (change predecessor self c)) cs

  -- The percent is none or from 1 to 1000, and the tokens are in ascending order, each once.
  abbrev pub IsValid : FeesCalculator Account → Type 0
  IsValid self = IsPercent self.percent × IsSorted o self.supported_tokens

  abbrev pub ValidResult :
      Result (FeesPanic Account) (FeesCalculator Account) → FeesCalculator Account → Type 0
  ValidResult (ok self') self = IsValid self' × (self'.owner ≡ self.owner)
  ValidResult (err _) self = Unit

  not_same : (a b : Account) → a ≢ b → same o a b ≡ false
  not_same a b ne = ground (arith, o.cmp_eq a b)

  -- Whoever is not the owner is refused, whatever the change, before anything else is looked at.
  pub change-only_owner :
      (predecessor : Account) (self : FeesCalculator Account) (c : Change Account)
      → predecessor ≢ self.owner
      → change predecessor self c ≡ err only_owner
  unfolding set_fee_percent add_supported_token remove_supported_token require
  change-only_owner predecessor self (fee_percent p) ne =
      rw (not_same predecessor self.owner ne) refl
  change-only_owner predecessor self (add_token t) ne = rw (not_same predecessor self.owner ne) refl
  change-only_owner predecessor self (remove_token t) ne =
      rw (not_same predecessor self.owner ne) refl

  fee_percent-ValidResult :
      (self : FeesCalculator Account) (r : Result ParseError (Option ℕ))
      → IsValid self
      → IsAnswer r
      → ValidResult
          (elim r [
            | ok value ↦ ok (record self { percent = value })
            | err e ↦ err (parse_failed e)
          ])
          self
  fee_percent-ValidResult self (ok p) (_, sorted) h = ((h, sorted), refl)
  fee_percent-ValidResult self (err e) v h = tt

  require-ValidResult :
      (self : FeesCalculator Account) (b : Bool) (p : FeesPanic Account)
      (f : Unit {0} → Result (FeesPanic Account) (FeesCalculator Account))
      → ValidResult (f tt) self
      → ValidResult (require o b p >>= f) self
  unfolding require
  require-ValidResult self true p f h = h
  require-ValidResult self false p f h = tt

  -- A change of a valid state that goes through leaves a valid state with the same owner.
  pub change-IsValid :
      (predecessor : Account) (self : FeesCalculator Account) (c : Change Account)
      → IsValid self
      → ValidResult (change predecessor self c) self
  unfolding set_fee_percent add_supported_token remove_supported_token
  change-IsValid predecessor self (fee_percent p) v =
      require-ValidResult self (same o predecessor self.owner) only_owner _
        (fee_percent-ValidResult self (parse_percent float p) v (parse_percent-IsAnswer float p))
  change-IsValid predecessor self (add_token t) (vp, vs) =
      require-ValidResult self (same o predecessor self.owner) only_owner _ (
        require-ValidResult self (not (BTreeSet.contains o self.supported_tokens t)) already_present
          _ (((vp, insert-IsSorted o self.supported_tokens t vs), refl)))
  change-IsValid predecessor self (remove_token t) (vp, vs) =
      require-ValidResult self (same o predecessor self.owner) only_owner _ (
        require-ValidResult self (BTreeSet.contains o self.supported_tokens t) (nothing_to_remove t)
          _ (((vp, remove-IsSorted o self.supported_tokens t vs), refl)))

  pub kept-IsValid :
      (self : FeesCalculator Account) (r : Result (FeesPanic Account) (FeesCalculator Account))
      → IsValid self
      → ValidResult r self
      → IsValid (kept self r) × ((kept self r).owner ≡ self.owner)
  kept-IsValid self (ok self') v h = h
  kept-IsValid self (err _) v h = (v, refl)

  changes-IsValid :
      (self : FeesCalculator Account) (cs : List (Account × Change Account))
      → IsValid self
      → IsValid (changes self cs) × ((changes self cs).owner ≡ self.owner)
  changes-IsValid self [] v = (v, refl)
  changes-IsValid self ((p, c) ∷ cs) v =
      let first = kept-IsValid self (change p self c) v (change-IsValid p self c v) in
      let rest = changes-IsValid (kept self (change p self c)) cs first.0 in
      (rest.0, rw (rest.1, first.1) refl)

  pub new-IsValid :
      (predecessor : Account) (tokens : List Account) → IsValid (new o predecessor tokens)
  unfolding new
  new-IsValid predecessor tokens = (((omega arith), (omega arith)), collect-IsSorted o [] tokens tt)

  -- After any calls by anyone, a contract that `new` set up is valid: its percent is none or from
  -- 1 to 1000, its tokens are in ascending order, each once, and its owner is who called `new`.
  pub changes-new :
      (predecessor : Account) (tokens : List Account) (cs : List (Account × Change Account))
      → IsValid (changes (new o predecessor tokens) cs)
        × ((changes (new o predecessor tokens) cs).owner ≡ predecessor)
  unfolding new
  changes-new predecessor tokens cs =
      changes-IsValid (new o predecessor tokens) cs (new-IsValid predecessor tokens)
