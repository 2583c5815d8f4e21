-- ===== src/Fees/Tokens.antt =====
-- The supported tokens of the fees contract as a set (fees/src/lib.rs).
use aurora_forwarder_contrac.Base.{◌≡◌, ◌≢◌, refl, Bool, true, false, ok, arith}
use aurora_forwarder_contrac.Base.Results.{◌>>=◌}
use aurora_forwarder_contrac.BTreeSet.{Ord, IsSorted, contains, insert, remove}
use aurora_forwarder_contrac.BTreeSet.Laws.{
  contains-insert_self, contains-insert_ne, contains-remove_self, contains-remove_ne, remove-insert,
  cmp_refl,
}
use aurora_forwarder_contrac.Fees.{
  FeesCalculator, same, require, add_supported_token, remove_supported_token,
}

module _ {Account : Type 0} (o : Ord Account) where
  -- Whether a token is supported.
  abbrev pub supports : FeesCalculator Account → Account → Bool
  supports self token_id = contains o self.supported_tokens token_id

  same_self : (a : Account) → same o a a ≡ true
  same_self a = ground (arith, cmp_refl o a)

  -- The owner adds a token that is not supported: afterwards exactly it and those of before are.
  pub add_supported_token-supports :
      (self : FeesCalculator Account) (token_id other : Account)
      → supports self token_id ≡ false
      → other ≢ token_id
      → (self' : FeesCalculator Account) × (add_supported_token o self.owner self token_id
          ≡ ok self')
        × (supports self' token_id ≡ true)
        × (supports self' other ≡ supports self other)
  unfolding add_supported_token require
  add_supported_token-supports self token_id other fresh ne = (
    record self { supported_tokens = insert o self.supported_tokens token_id },
    rw (same_self self.owner) (rw fresh refl),
    contains-insert_self o self.supported_tokens token_id,
    contains-insert_ne o self.supported_tokens token_id other ne,
  )

  -- The owner removes a supported token of a sorted list: afterwards exactly the others are supported.
  pub remove_supported_token-supports :
      (self : FeesCalculator Account) (token_id other : Account)
      → IsSorted o self.supported_tokens
      → supports self token_id ≡ true
      → other ≢ token_id
      → (self' : FeesCalculator Account) × (remove_supported_token o self.owner self token_id
          ≡ ok self')
        × (supports self' token_id ≡ false)
        × (supports self' other ≡ supports self other)
  unfolding remove_supported_token require
  remove_supported_token-supports self token_id other sorted there ne = (
    record self { supported_tokens = remove o self.supported_tokens token_id },
    rw (same_self self.owner) (rw there refl),
    contains-remove_self o self.supported_tokens token_id sorted,
    contains-remove_ne o self.supported_tokens token_id other sorted ne,
  )

  -- The owner adds a token that a sorted list does not have and removes it again: the contract is as before.
  pub remove_supported_token-add :
      (self : FeesCalculator Account) (token_id : Account)
      → IsSorted o self.supported_tokens
      → supports self token_id ≡ false
      → (add_supported_token o self.owner self token_id >>= λ self'.
          remove_supported_token o self'.owner self' token_id)
        ≡ ok self
  unfolding add_supported_token remove_supported_token require
  remove_supported_token-add self token_id sorted fresh = rw (same_self self.owner) (
      rw fresh (
        rw (contains-insert_self o self.supported_tokens token_id) (
          rw (same_self self.owner)
            (rw (remove-insert o self.supported_tokens token_id sorted fresh) refl))))
