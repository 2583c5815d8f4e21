-- ===== src/Factory/Create.antt =====
-- `create` and the guard of the private methods (factory/src/lib.rs).
use aurora_forwarder_contrac.Base.{
  ℕ, suc, ◌*◌, ◌≤◌, ◌≡◌, ◌≢◌, refl, [], ◌∷◌, List, ◌++◌, Bytes, bytes_eq, bytes_eq_iff, length,
  length-append, false, Result, ok, err, arith,
}
use aurora_forwarder_contrac.Base.Results.{◌>>=◌}
use aurora_forwarder_contrac.Crates.{Crates}
use aurora_forwarder_contrac.Factory
use aurora_forwarder_contrac.Factory.{
  Sdk, AuroraForwarderFactory, DeployParameters, FactoryPanic, FactoryPromise, method_is_private,
  assert_private, create_one, create_all, assert_number,
}

-- The calls that are private.
pub data PrivateCall : Type 0 where
  create : List DeployParameters → PrivateCall
  forward_tokens : Bytes → Bytes → PrivateCall
  set_fees_contract_id : Bytes → PrivateCall
  destroy_forwarder : Bytes → PrivateCall

module _ (lib : Crates) (sdk : Sdk) (current : Bytes) where
  -- The call is refused as private.
  abbrev pub IsRefused : Bytes → AuroraForwarderFactory → PrivateCall → Type 0
  IsRefused caller self (PrivateCall.create ps) =
      Factory.create lib sdk current caller self ps ≡ err method_is_private
  IsRefused caller self (PrivateCall.forward_tokens id token) =
      Factory.forward_tokens lib sdk current caller id token ≡ err method_is_private
  IsRefused caller self (PrivateCall.set_fees_contract_id id) =
      Factory.set_fees_contract_id lib sdk current caller self id ≡ err method_is_private
  IsRefused caller self (PrivateCall.destroy_forwarder id) =
      Factory.destroy_forwarder lib sdk current caller id ≡ err method_is_private

  -- Every method that changes the state or schedules promises refuses any caller but the factory
  -- itself.
  pub private-IsRefused :
      (caller : Bytes) (self : AuroraForwarderFactory) (c : PrivateCall)
      → caller ≢ current
      → IsRefused caller self c
  unfolding Factory.create Factory.forward_tokens Factory.set_fees_contract_id
      Factory.destroy_forwarder
  private-IsRefused caller self c differ = refused c
    where
      other : bytes_eq caller current ≡ false
      other = ground (arith, bytes_eq_iff caller current, differ)

      refused : (c : PrivateCall) → IsRefused caller self c
      refused (PrivateCall.create ps) = rw other refl
      refused (PrivateCall.forward_tokens id token) = rw other refl
      refused (PrivateCall.set_fees_contract_id id) = rw other refl
      refused (PrivateCall.destroy_forwarder id) = rw other refl

  -- Two promises for a forwarder, and `n` forwarders with two each.
  abbrev pub HasTwo : Result FactoryPanic (Bytes × List FactoryPromise) → Type 0
  HasTwo (ok r) = length r.1 ≡ 2
  HasTwo (err _) = Unit

  abbrev pub HasLengths : ℕ → Result FactoryPanic (List Bytes × List FactoryPromise) → Type 0
  HasLengths n (ok r) = (length r.0 ≡ n) × (length r.1 ≡ 2 * n)
  HasLengths n (err _) = Unit

  create_one-HasTwo :
      (self : AuroraForwarderFactory) (p : DeployParameters)
      → HasTwo (create_one lib sdk current self p)
  unfolding create_one
  create_one-HasTwo self p = ground arith

  next-HasLengths :
      (n : ℕ) (one : Result FactoryPanic (Bytes × List FactoryPromise))
      (all : Result FactoryPanic (List Bytes × List FactoryPromise))
      → HasTwo one
      → HasLengths n all
      → HasLengths (suc n) (one >>= λ x. all >>= λ y. ok (x.0 ∷ y.0, x.1 ++ y.1))
  next-HasLengths n (err _) all two lengths = tt
  next-HasLengths n (ok x) (err _) two lengths = tt
  next-HasLengths n (ok x) (ok y) two lengths =
      (omega (arith, lengths), omega (arith, two, lengths, length-append x.1 y.1))

  create_all-HasLengths :
      (self : AuroraForwarderFactory) (parameters : List DeployParameters)
      → HasLengths (length parameters) (create_all lib sdk current self parameters)
  unfolding create_all
  create_all-HasLengths self [] = (refl, refl)
  create_all-HasLengths self (p ∷ rest) =
      next-HasLengths (length rest) (create_one lib sdk current self p)
        (create_all lib sdk current self rest) (create_one-HasTwo self p)
        (create_all-HasLengths self rest)

  -- A `create` that goes through has from one to twelve parameters, and gives one account and two
  -- promises for each.
  pub create-length :
      (caller : Bytes) (self : AuroraForwarderFactory) (parameters : List DeployParameters)
      {ids : List Bytes} {promises : List FactoryPromise}
      → Factory.create lib sdk current caller self parameters ≡ ok (ids, promises)
      → (caller ≡ current)
        × (1 ≤ length parameters)
        × (length parameters ≤ 12)
        × (length ids ≡ length parameters)
        × (length promises ≡ 2 * length parameters)
  unfolding Factory.create assert_number
  create-length caller self parameters {ids} {promises} h =
      let made = create_all-HasLengths self parameters in
      ground (arith, bytes_eq_iff caller current, made)
