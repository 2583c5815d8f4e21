-- ===== src/Forwarder/Params/RoundTrip.antt =====
-- Reading the bytes of a state and of the parameters.
use aurora_forwarder_contrac.Base.{ℕ, ◌<◌, ◌^◌, ◌≡◌, append-nil, [], Bytes, Result, ok}
use aurora_forwarder_contrac.Crates.{Crates, IsDocumented, IoError}
use aurora_forwarder_contrac.Forwarder.AccountId.{AccountId}
use aurora_forwarder_contrac.Forwarder.AccountId.Codec.{
  IsAccount, encoding, deserialize_reader-encoding, deserialize_reader-encoding_last,
}
use aurora_forwarder_contrac.Forwarder.Address.{deserialize_reader-raw}
use aurora_forwarder_contrac.Forwarder.Params.{
  State, FinishForwardParams, read_state, read_forward_params, read_finish_params, try_from_slice,
}
use aurora_forwarder_contrac.Forwarder.Params.Layout.{IsState, state_bytes, finish_params_bytes}

-- A reader that reads everything.
pub try_from_slice-all {ℓ} :
    {A : Type ℓ} (reader : Bytes → Result IoError (A × Bytes)) (s : Bytes) {a : A}
    → reader s ≡ ok (a, [])
    → try_from_slice reader s ≡ ok a
try_from_slice-all reader s h = rw (h, try_from_slice)

module _ {lib : Crates} (doc : IsDocumented lib) where
  read_u64-last : (n : ℕ) → n < 2 ^ 64 → lib.read_u64 (lib.write_u64 n) ≡ ok (n, [])
  read_u64-last n h = rw append-nil at (doc.u64_back n [] h)

  state_bytes-read : (s : State) → IsState s → read_state lib (state_bytes lib s) ≡ ok (s, [])
  unfolding read_state
  state_bytes-read s h = rw (
    deserialize_reader-raw s.target_address _ h.address,
    deserialize_reader-encoding doc s.target_network _ h.network,
    deserialize_reader-encoding doc s.wnear_contract_id _ h.wnear,
    deserialize_reader-encoding doc s.fees_contract_id _ h.fees,
    deserialize_reader-encoding_last doc s.owner_id h.owner,
  )

  -- The bytes of a valid state are read back as that state, with nothing left over.
  pub read_state-bytes :
      (s : State) → IsState s → try_from_slice (read_state lib) (state_bytes lib s) ≡ ok s
  read_state-bytes s h = try_from_slice-all (read_state lib) _ (state_bytes-read s h)

  forward_params-read :
      (id : AccountId)
      → IsAccount id
      → read_forward_params lib (encoding lib id) ≡ ok (record { token_id = id }, [])
  unfolding read_forward_params
  forward_params-read id h = rw (deserialize_reader-encoding_last doc id h)

  -- The callback of `forward_nep141_token` gets a bare token name, and reads it as its parameters.
  pub read_forward_params-encoding :
      (id : AccountId)
      → IsAccount id
      → try_from_slice (read_forward_params lib) (encoding lib id) ≡ ok (record { token_id = id })
  read_forward_params-encoding id h =
      try_from_slice-all (read_forward_params lib) _ (forward_params-read id h)

  finish_params-read :
      (p : FinishForwardParams)
      → p.amount < 2 ^ 128
      → IsAccount p.token_id
      → p.promise_idx < 2 ^ 64
      → read_finish_params lib (finish_params_bytes lib p) ≡ ok (p, [])
  unfolding read_finish_params
  finish_params-read p ha ht hi = rw (
    doc.u128_back p.amount _ ha,
    deserialize_reader-encoding doc p.token_id _ ht,
    read_u64-last p.promise_idx hi,
  )

  -- The bytes of the last callback's parameters are read back as those parameters, if the amount is
  -- a u128, the index a u64 and the token's name valid.
  pub read_finish_params-bytes :
      (p : FinishForwardParams)
      → p.amount < 2 ^ 128
      → IsAccount p.token_id
      → p.promise_idx < 2 ^ 64
      → try_from_slice (read_finish_params lib) (finish_params_bytes lib p) ≡ ok p
  read_finish_params-bytes p ha ht hi =
      try_from_slice-all (read_finish_params lib) _ (finish_params-read p ha ht hi)
