-- ===== src/Fees/Refinement.antt =====
-- The fees contract does what its policy says (fees/src/lib.rs).
use aurora_forwarder_contrac.Base.{
  ℕ, ◌≡◌, refl, ◌∙◌, ap, inl, inr, Bool, Bool-cases, true, false, not, Option, List, [], ◌∷◌, Bytes,
  if◌then◌else◌, Result, ok, err, arith,
}
use aurora_forwarder_contrac.Base.Results.{◌>>=◌}
use aurora_forwarder_contrac.BTreeSet.{Ord, IsSorted, contains, insert, remove}
use aurora_forwarder_contrac.Fees.{
  FeesCalculator, FeesPanic, only_owner, parse_failed, already_present, nothing_to_remove, same,
  new, require, charge, calculate_fees, set_fee_percent, add_supported_token,
  remove_supported_token,
}
use aurora_forwarder_contrac.Fees.Access.{
  Change, fee_percent, add_token, remove_token, change, kept, changes, IsValid, change-IsValid,
  kept-IsValid, new-IsValid,
}
use aurora_forwarder_contrac.Fees.Percent.{Float, ParseError, parse_percent}
use aurora_forwarder_contrac.Fees.Policy.{
  Policy, view, first_policy, with_percent, owners_change, policy_change, policy_changes,
  policy_fee, contains-insert, contains-remove, contains-collect, same_tokens, present, missing,
}

module _ {Account : Type 0} (o : Ord Account) where
  module _ (float : Float) where
    -- The change that the owner asks for, or the state as it was.
    kept-require :
        (self : FeesCalculator Account) (b : Bool) (p : FeesPanic Account)
        (f : Unit {0} → Result (FeesPanic Account) (FeesCalculator Account)) (s : Policy Account)
        → view o (kept o float self (f tt)) ≡ s
        → view o (kept o float self (require o b p >>= f)) ≡ (if b then s else view o self)
    unfolding require
    kept-require self true p f s h = h
    kept-require self false p f s h = refl

    kept-percent :
        (self : FeesCalculator Account) (r : Result ParseError (Option ℕ))
        → view o (
            kept o float self (elim r [
              | ok value ↦ ok (record self { percent = value })
              | err e ↦ err (parse_failed e)
            ]))
          ≡ with_percent o (view o self) r
    kept-percent self (ok value) = refl
    kept-percent self (err e) = refl

    kept-add :
        (self : FeesCalculator Account) (t : Account)
        → view o (
            kept o float self (
              require o (not (contains o self.supported_tokens t)) already_present >>= λ _.
              ok (record self { supported_tokens = insert o self.supported_tokens t })))
          ≡ owners_change o float (view o self) (add_token t)
    unfolding require
    kept-add self t = elim (Bool-cases (contains o self.supported_tokens t)) [
      | inl there ↦
          rw there (same_tokens o (view o self) (λ a. present o self.supported_tokens t a there))
      | inr absent ↦
          rw absent (same_tokens o (view o self) (contains-insert o self.supported_tokens t))
    ]

    kept-remove :
        (self : FeesCalculator Account) (t : Account)
        → IsSorted o self.supported_tokens
        → view o (
            kept o float self (
              require o (contains o self.supported_tokens t) (nothing_to_remove t) >>= λ _.
              ok (record self { supported_tokens = remove o self.supported_tokens t })))
          ≡ owners_change o float (view o self) (remove_token t)
    unfolding require
    kept-remove self t sorted = elim (Bool-cases (contains o self.supported_tokens t)) [
      | inl there ↦
          rw there
            (same_tokens o (view o self) (λ a. contains-remove o self.supported_tokens t a sorted))
      | inr absent ↦
          rw absent (same_tokens o (view o self) (λ a. missing o self.supported_tokens t a absent))
    ]

    change-refines :
        (predecessor : Account) (self : FeesCalculator Account) (c : Change Account)
        → IsSorted o self.supported_tokens
        → view o (kept o float self (change o float predecessor self c))
          ≡ policy_change o float (view o self) predecessor c
    unfolding set_fee_percent add_supported_token remove_supported_token
    change-refines predecessor self (fee_percent p) sorted =
        kept-require self (same o predecessor self.owner) only_owner _ _
          (kept-percent self (parse_percent float p))
    change-refines predecessor self (add_token t) sorted =
        kept-require self (same o predecessor self.owner) only_owner _ _ (kept-add self t)
    change-refines predecessor self (remove_token t) sorted =
        kept-require self (same o predecessor self.owner) only_owner _ _ (kept-remove self t sorted)

    changes-refine :
        (self : FeesCalculator Account) (cs : List (Account × Change Account))
        → IsValid o float self
        → view o (changes o float self cs) ≡ policy_changes o float (view o self) cs
    changes-refine self [] valid = refl
    changes-refine self ((predecessor, c) ∷ cs) valid =
        let self' = kept o float self (change o float predecessor self c) in
        let kept_valid =
          kept-IsValid o float self (change o float predecessor self c) valid
            (change-IsValid o float predecessor self c valid) in
        changes-refine self' cs kept_valid.0
        ∙ ap (λ (s : Policy Account). policy_changes o float s cs)
            (change-refines predecessor self c valid.1)

    new-refines :
        (predecessor : Account) (tokens : List Account)
        → view o (new o predecessor tokens) ≡ first_policy o predecessor tokens
    unfolding new contains
    new-refines predecessor tokens =
        same_tokens o (first_policy o predecessor tokens) (contains-collect o [] tokens)

    fee-refines :
        (self : FeesCalculator Account) (amount : ℕ) (token network : Account) (address : Bytes)
        → calculate_fees o self amount token network address
          ≡ policy_fee o (view o self) amount token
    unfolding calculate_fees charge
    fee-refines self amount token network address = ground arith

    -- The fees contract behaves as a percent, an owner and a set of tokens. After any calls by anyone
    -- on a new contract, what can be seen of it is what the owner's calls alone make of the policy: a
    -- percent that can be parsed is set, a token is put into the set or taken out of it, and every
    -- other call changes nothing. The fee of every amount is the one of that policy, whatever the
    -- network and the address are.
    pub changes-refine_policy :
        (predecessor : Account) (tokens : List Account) (cs : List (Account × Change Account))
        → let self = changes o float (new o predecessor tokens) cs in
          let policy = policy_changes o float (first_policy o predecessor tokens) cs in
          (view o self ≡ policy)
          × ((amount : ℕ) (token network : Account) (address : Bytes)
              → calculate_fees o self amount token network address
                ≡ policy_fee o policy amount token)
    changes-refine_policy predecessor tokens cs =
        let self = changes o float (new o predecessor tokens) cs in
        let same_view =
          changes-refine (new o predecessor tokens) cs (new-IsValid o float predecessor tokens)
          ∙ ap (λ (s : Policy Account). policy_changes o float s cs)
              (new-refines predecessor tokens) in
        (
          same_view,
          λ amount token network address.
              fee-refines self amount token network address
              ∙ ap (λ (s : Policy Account). policy_fee o s amount token) same_view,
        )
