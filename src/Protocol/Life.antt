-- ===== src/Protocol/Life.antt =====
-- A forwarder from the factory's `create` on (factory/src/lib.rs, utils/src/lib.rs, forwarder/src/lib.rs).
use aurora_forwarder_contrac.Base.{
  ◌≤◌, ◌≡◌, ◌⊎◌, sym, All, none, List, [], ◌∷◌, ◌++◌, Bytes, codes, length, ok, arith, inl, inr,
}
use mathlib.Core.Path.{subst}
use aurora_forwarder_contrac.Crates.{Crates, IsDocumented}
use aurora_forwarder_contrac.Factory.{
  Sdk, AuroraForwarderFactory, DeployParameters, deploy, then_storage_deposit, create,
  create_forwarder_id, init_balance, forwarder_new_gas, storage_balance_bound,
}
use aurora_forwarder_contrac.Factory.Names.{IsDocumentedSdk, create_forwarder_id-name}
use aurora_forwarder_contrac.Forwarder.AccountId.{AccountId}
use aurora_forwarder_contrac.Forwarder.AccountId.Codec.{IsAccount}
use aurora_forwarder_contrac.Forwarder.AccountId.Grammar.{IsName, validate_iff}
use aurora_forwarder_contrac.Forwarder.Contract.Spec.{IsReady}
use aurora_forwarder_contrac.Forwarder.Flow.{name}
use aurora_forwarder_contrac.Forwarder.Flow.Steps.{after, name-new}
use aurora_forwarder_contrac.Forwarder.Host.Machine.{Machine}
use aurora_forwarder_contrac.Forwarder.Params.{State, state_storage_key}
use aurora_forwarder_contrac.Forwarder.Params.Layout.{IsState, names_length, state_bytes}
use aurora_forwarder_contrac.Forwarder.Safety.{Call}
use aurora_forwarder_contrac.Forwarder.Chain.{
  Event, called, happen, history, IsQuiet, IsNamed, IsDestroyedBy,
}
use aurora_forwarder_contrac.Forwarder.Chain.Once.{called-IsReady}
use aurora_forwarder_contrac.Forwarder.Chain.Until.{IsDeleted, kept_until}
use aurora_forwarder_contrac.Protocol.Create.{Order, create-ordered}
use aurora_forwarder_contrac.Protocol.Deploy.{IsAskedFor, new-IsReady, new-IsQuiet}
use aurora_forwarder_contrac.Utils.{forwarder_prefix}

-- The account of the forwarder that is asked for.
abbrev pub account_for : Sdk → Bytes → AuroraForwarderFactory → DeployParameters → AccountId
account_for sdk current self p = record {
  as_bytes =
      forwarder_prefix sdk.hashing p.target_address p.target_network self.fees_contract_id
      ++ (codes "." ++ current);
}

module _ {lib : Crates} (doc : IsDocumented lib) {sdk : Sdk} (sdk_doc : IsDocumentedSdk sdk)
    (current : Bytes) (self : AuroraForwarderFactory) (p : DeployParameters)
    (valid_factory : IsName current) (short_factory : length current ≤ 19) where
  account_for-named :
      (create_forwarder_id sdk current p.target_address p.target_network self.fees_contract_id
        ≡ ok (account_for sdk current self p).as_bytes)
      × IsAccount (account_for sdk current self p)
  account_for-named =
      elim (create_forwarder_id-name sdk_doc p.target_address p.target_network self.fees_contract_id
        current valid_factory) [
          | inl (_, named, is_name) ↦ (named, (validate_iff _).0.1 is_name)
          | inr (_, long, _) ↦ absurd (omega (arith, long, short_factory))
        ]

  abbrev order_for :
      {s : State} → IsAskedFor sdk current self p s → IsState s → Order sdk current self
  order_for {s} asked valid = record {
    params = p;
    state = s;
    id = (account_for sdk current self p).as_bytes;
    asked = asked;
    valid = valid;
    named = account_for-named.0;
  }

  -- The factory makes forwarders that last until it destroys them, as long as the full access key
  -- that `new` adds is not used on them. A factory with a valid name of at
  -- most 19 bytes calls its own `create` for one forwarder, with a valid state that has at most 220
  -- bytes of names and with the factory as its owner, over hashes and a parser of names as
  -- documented. Then `create` goes through: it returns the account of the prefix under the factory's
  -- name, and schedules the deployment of this account with a call of `new` on the bytes of the state
  -- and its registration with wNEAR. And when `new` is called with these bytes on this account while
  -- it has no state and no deletion is scheduled, the forwarder is in place with the state that was
  -- asked for. Behind any further events, with callers with valid names, it still is, or a deletion
  -- was carried out, up to which it was in place with this state, and the factory itself had called
  -- `destroy`.
  pub create-lasts :
      {s : State} (m : Machine) (c : Call) (es : List Event)
      → IsAskedFor sdk current self p s
      → IsState s
      → names_length s ≤ 220
      → let forwarder = account_for sdk current self p in
        m.current ≡ forwarder.as_bytes
        → m.storage state_storage_key ≡ none
        → IsQuiet m
        → name c.entry ≡ codes "new"
        → c.input_bytes ≡ state_bytes lib s
        → All IsNamed es
        → let m' = happen lib m (called c) in
          (create lib sdk current current self (p ∷ [])
            ≡ ok (
              forwarder.as_bytes ∷ [],
              deploy forwarder.as_bytes init_balance
                    (codes "new")
                    (state_bytes lib s)
                    0
                    forwarder_new_gas
                  ∷ then_storage_deposit p.wnear_contract_id forwarder.as_bytes
                      storage_balance_bound
                  ∷ [],
            ))
          × IsReady lib s forwarder m'
          × (IsReady lib s forwarder (history lib m' es)
              ⊎ IsDeleted lib (IsReady lib s forwarder) (IsDestroyedBy current) m' es)
  unfolding happen
  create-lasts {s} m c es asked valid short here absent quiet called_new given named =
      let forwarder = account_for sdk current self p in
      let is_account = account_for-named.1 in
      let is_new = name-new c.entry called_new in
      let ready = new-IsReady doc m c s forwarder is_new is_account here valid short absent given in
      let calm =
        new-IsQuiet doc m c s forwarder is_new is_account here valid short absent given quiet in
      (
        create-ordered doc sdk current self (order_for asked valid ∷ []) (omega arith)
            (omega arith),
        ready,
        subst
            (λ (owner : Bytes).
              IsReady lib s forwarder (history lib (after lib m c) es)
              ⊎ IsDeleted lib (IsReady lib s forwarder) (IsDestroyedBy owner) (after lib m c) es)
            (sym asked.owner)
            (kept_until doc (IsReady lib s forwarder) (λ n r. r) (called-IsReady doc is_account s)
              (after lib m c) es ready calm named),
      )
