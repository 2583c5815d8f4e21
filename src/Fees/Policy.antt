-- ===== src/Fees/Policy.antt =====
-- What can be seen of the fees contract: a percent, an owner and a set of tokens (fees/src/lib.rs).
use aurora_forwarder_contrac.Base.{
  ℕ, ◌≡◌, ◌≢◌, refl, sym, ◌∙◌, ap, ◌⊎◌, inl, inr, Bool, Bool-cases, true, false, not, ◌&&◌, ◌||◌,
  Option, none, some, List, [], ◌∷◌, if◌then◌else◌, Result, ok, err, arith,
}
use aurora_forwarder_contrac.BTreeSet.{Ord, IsSorted, contains, insert, remove, collect}
use aurora_forwarder_contrac.BTreeSet.Laws.{
  contains-insert_self, contains-insert_ne, contains-remove_self, contains-remove_ne, cmp_refl,
}
use aurora_forwarder_contrac.Fees.{FeesCalculator, default_percent, same, fee_of}
use aurora_forwarder_contrac.Fees.Access.{Change, fee_percent, add_token, remove_token}
use aurora_forwarder_contrac.Fees.Percent.{Float, ParseError, parse_percent}

-- What a caller may know of the contract: the order of the tokens is forgotten.
pub record Policy (Account : Type 0) : Type 0 where
  pub percent : Option ℕ
  pub owner : Account
  pub supported : Account → Bool

or_false : (b : Bool) → (b || false) ≡ b
or_false true = refl
or_false false = refl

or_shift : (a b c : Bool) → ((a || b) || c) ≡ (b || (a || c))
or_shift true true c = refl
or_shift true false c = refl
or_shift false b c = refl

module _ {Account : Type 0} (o : Ord Account) where
  abbrev pub view : FeesCalculator Account → Policy Account
  view self = record {
    percent = self.percent;
    owner = self.owner;
    supported = contains o self.supported_tokens;
  }

  abbrev pub is_one_of : List Account → Account → Bool
  is_one_of [] a = false
  is_one_of (t ∷ ts) a = same o a t || is_one_of ts a

  abbrev pub first_policy : Account → List Account → Policy Account
  first_policy predecessor tokens = record {
    percent = some default_percent;
    owner = predecessor;
    supported = is_one_of tokens;
  }

  abbrev pub with_percent : Policy Account → Result ParseError (Option ℕ) → Policy Account
  with_percent s (ok value) = record s { percent = value }
  with_percent s (err _) = s

  -- What a change by the owner makes of it.
  abbrev pub owners_change : Float → Policy Account → Change Account → Policy Account
  owners_change float s (fee_percent p) = with_percent s (parse_percent float p)
  owners_change float s (add_token t) = record s { supported = λ a. same o a t || s.supported a }
  owners_change float s (remove_token t) = record s {
    supported = λ a. not (same o a t) && s.supported a;
  }

  abbrev pub policy_change : Float → Policy Account → Account → Change Account → Policy Account
  policy_change float s predecessor c =
      if same o predecessor s.owner then owners_change float s c else s

  abbrev pub policy_changes :
      Float → Policy Account → List (Account × Change Account) → Policy Account
  policy_changes float s [] = s
  policy_changes float s ((predecessor, c) ∷ cs) =
      policy_changes float (policy_change float s predecessor c) cs

  -- The fee for a token.
  abbrev pub policy_fee : Policy Account → ℕ → Account → ℕ
  policy_fee s amount token = elim s.percent [
    | none ↦ 0
    | some percent ↦ if s.supported token then fee_of percent amount else 0
  ]

  same_or_other : (a t : Account) → (a ≡ t) ⊎ ((a ≢ t) × (same o a t ≡ false))
  same_or_other a t = elim (Bool-cases (same o a t)) [
    | inl is_same ↦ inl (ground (arith, o.cmp_eq a t, is_same))
    | inr differs ↦ inr ((λ e. ground (arith, o.cmp_eq a t, differs, e)), differs)
  ]

  same_refl : (a : Account) → same o a a ≡ true
  same_refl a = ground (arith, cmp_refl o a)

  pub contains-insert :
      (xs : List Account) (t a : Account)
      → contains o (insert o xs t) a ≡ (same o a t || contains o xs a)
  contains-insert xs t a = elim (same_or_other a t) [
    | inl e ↦
        rw e (contains-insert_self o xs t ∙ sym (ap (λ b. b || contains o xs t) (same_refl t)))
    | inr (ne, differs) ↦
        contains-insert_ne o xs t a ne ∙ sym (ap (λ b. b || contains o xs a) differs)
  ]

  pub contains-remove :
      (xs : List Account) (t a : Account)
      → IsSorted o xs
      → contains o (remove o xs t) a ≡ (not (same o a t) && contains o xs a)
  contains-remove xs t a h = elim (same_or_other a t) [
    | inl e ↦
        rw e
          (contains-remove_self o xs t h ∙ sym (ap (λ b. not b && contains o xs t) (same_refl t)))
    | inr (ne, differs) ↦
        contains-remove_ne o xs t a h ne ∙ sym (ap (λ b. not b && contains o xs a) differs)
  ]

  pub contains-collect :
      (set xs : List Account) (a : Account)
      → contains o (collect o set xs) a ≡ (contains o set a || is_one_of xs a)
  unfolding collect
  contains-collect set [] a = sym (or_false (contains o set a))
  contains-collect set (t ∷ ts) a =
      contains-collect (insert o set t) ts a
      ∙ ap (λ b. b || is_one_of ts a) (contains-insert set t a)
      ∙ or_shift (same o a t) (contains o set a) (is_one_of ts a)

  -- Two policies with the same tokens.
  pub same_tokens :
      (s : Policy Account) {f g : Account → Bool}
      → ((a : Account) → f a ≡ g a)
      → ◌≡◌ {A = Policy Account} (record s { supported = f }) (record s { supported = g })
  same_tokens s h = λ i. record s { supported = λ a. h a i }

  pub present :
      (xs : List Account) (t a : Account)
      → contains o xs t ≡ true
      → contains o xs a ≡ (same o a t || contains o xs a)
  present xs t a there = elim (same_or_other a t) [
    | inl e ↦ rw e (there ∙ sym (ap (λ b. b || contains o xs t) (same_refl t)))
    | inr (ne, differs) ↦ sym (ap (λ b. b || contains o xs a) differs)
  ]

  pub missing :
      (xs : List Account) (t a : Account)
      → contains o xs t ≡ false
      → contains o xs a ≡ (not (same o a t) && contains o xs a)
  missing xs t a absent = elim (same_or_other a t) [
    | inl e ↦ rw e (absent ∙ sym (ap (λ b. not b && contains o xs t) (same_refl t)))
    | inr (ne, differs) ↦ sym (ap (λ b. not b && contains o xs a) differs)
  ]
