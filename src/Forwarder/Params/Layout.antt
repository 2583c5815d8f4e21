-- ===== src/Forwarder/Params/Layout.antt =====
-- The bytes of a state and of the parameters, and how many they are.
use aurora_forwarder_contrac.Base.{ℕ, ◌+◌, ◌≡◌, ◌++◌, Bytes, length, length-append, ok, arith}
use aurora_forwarder_contrac.Crates.{Crates, IsDocumented}
use aurora_forwarder_contrac.Forwarder.AccountId.Codec.{
  IsAccount, encoding, serialize-encoding, length-encoding,
}
use aurora_forwarder_contrac.Forwarder.Address
use aurora_forwarder_contrac.Forwarder.Address.{IsAddress}
use aurora_forwarder_contrac.Forwarder.Params.{
  State, FeesParams, FinishForwardParams, write_state, write_fees_params, write_finish_params,
}

-- Every name of the state is valid, and its address has twenty bytes.
pub record IsState (s : State) : Type 0 where
  pub address : IsAddress s.target_address
  pub network : IsAccount s.target_network
  pub wnear : IsAccount s.wnear_contract_id
  pub fees : IsAccount s.fees_contract_id
  pub owner : IsAccount s.owner_id

-- The letters of its four names.
abbrev pub names_length : State → ℕ
names_length s =
    length s.target_network.as_bytes
    + length s.wnear_contract_id.as_bytes
    + length s.fees_contract_id.as_bytes
    + length s.owner_id.as_bytes

module _ (lib : Crates) where
  abbrev pub state_bytes : State → Bytes
  state_bytes s =
      s.target_address.raw
      ++ (encoding lib s.target_network
          ++ (encoding lib s.wnear_contract_id
              ++ (encoding lib s.fees_contract_id ++ encoding lib s.owner_id)))

  abbrev pub fees_params_bytes : FeesParams → Bytes
  fees_params_bytes p =
      lib.write_u128 p.amount
      ++ (encoding lib p.token_id ++ (encoding lib p.target_network ++ p.target_address.raw))

  abbrev pub finish_params_bytes : FinishForwardParams → Bytes
  finish_params_bytes p =
      lib.write_u128 p.amount ++ (encoding lib p.token_id ++ lib.write_u64 p.promise_idx)

module _ {lib : Crates} (doc : IsDocumented lib) where
  pub write_state-layout : (s : State) → IsState s → write_state lib s ≡ ok (state_bytes lib s)
  unfolding write_state Address.serialize
  write_state-layout s h = rw (
    serialize-encoding doc s.target_network h.network,
    serialize-encoding doc s.wnear_contract_id h.wnear,
    serialize-encoding doc s.fees_contract_id h.fees,
    serialize-encoding doc s.owner_id h.owner,
  )

  pub length-state_bytes :
      (s : State) → IsState s → length (state_bytes lib s) ≡ 36 + names_length s
  length-state_bytes s h = omega (arith, length-append {0}, length-encoding doc, h.address)

  pub write_fees_params-layout :
      (p : FeesParams)
      → IsAccount p.token_id
      → IsAccount p.target_network
      → write_fees_params lib p ≡ ok (fees_params_bytes lib p)
  unfolding write_fees_params Address.serialize
  write_fees_params-layout p ht hn =
      rw (serialize-encoding doc p.token_id ht, serialize-encoding doc p.target_network hn)

  pub length-fees_params_bytes :
      (p : FeesParams)
      → IsAddress p.target_address
      → length (fees_params_bytes lib p)
        ≡ 44 + length p.token_id.as_bytes + length p.target_network.as_bytes
  length-fees_params_bytes p h =
      omega (arith, length-append {0}, length-encoding doc, doc.u128_length p.amount, h)

  pub write_finish_params-layout :
      (p : FinishForwardParams)
      → IsAccount p.token_id
      → write_finish_params lib p ≡ ok (finish_params_bytes lib p)
  unfolding write_finish_params
  write_finish_params-layout p ht = rw (serialize-encoding doc p.token_id ht)

  pub length-finish_params_bytes :
      (p : FinishForwardParams)
      → length (finish_params_bytes lib p) ≡ 28 + length p.token_id.as_bytes
  length-finish_params_bytes p = omega (
    arith,
    length-append {0},
    length-encoding doc,
    doc.u128_length p.amount,
    doc.u64_length p.promise_idx,
  )
