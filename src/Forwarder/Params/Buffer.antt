-- ===== src/Forwarder/Params/Buffer.antt =====
-- Which values fit the 256 bytes of `to_borsh`.
use aurora_forwarder_contrac.Base.{◌≡◌, leb, if◌then◌else◌, ok, err, trap, arith}
use aurora_forwarder_contrac.Crates.{Crates, IsDocumented}
use aurora_forwarder_contrac.Forwarder.AccountId
use aurora_forwarder_contrac.Forwarder.AccountId.{AccountId}
use aurora_forwarder_contrac.Forwarder.AccountId.Codec.{
  IsAccount, IsAccount-bounds, encoding, serialize-encoding, length-encoding,
}
use aurora_forwarder_contrac.Forwarder.Address.{IsAddress}
use aurora_forwarder_contrac.Forwarder.Borsh.{to_borsh, to_borsh_fits}
use aurora_forwarder_contrac.Forwarder.Params.{
  State, FeesParams, FinishForwardParams, write_state, write_fees_params, write_finish_params,
}
use aurora_forwarder_contrac.Forwarder.Params.Layout.{
  IsState, names_length, state_bytes, fees_params_bytes, finish_params_bytes, write_state-layout,
  length-state_bytes, write_fees_params-layout, length-fees_params_bytes,
  write_finish_params-layout, length-finish_params_bytes,
}

module _ {lib : Crates} (doc : IsDocumented lib) where
  -- A state is serialized whole if its four names have at most 220 bytes together; otherwise
  -- `to_borsh` traps.
  pub to_borsh-write_state :
      (s : State)
      → IsState s
      → to_borsh (write_state lib s)
        ≡ (if leb (names_length s) 220 then ok (ok (state_bytes lib s)) else err trap)
  unfolding to_borsh
  to_borsh-write_state s h =
      rw (write_state-layout doc s h) (ground (arith, length-state_bytes doc s h))

  pub to_borsh-write_fees_params :
      (p : FeesParams)
      → IsAccount p.token_id
      → IsAccount p.target_network
      → IsAddress p.target_address
      → to_borsh (write_fees_params lib p) ≡ ok (ok (fees_params_bytes lib p))
  to_borsh-write_fees_params p ht hn ha = rw (write_fees_params-layout doc p ht hn) (
      to_borsh_fits _ (
        omega (
          arith,
          length-fees_params_bytes doc p ha,
          IsAccount-bounds p.token_id ht,
          IsAccount-bounds p.target_network hn,
        )))

  pub to_borsh-write_finish_params :
      (p : FinishForwardParams)
      → IsAccount p.token_id
      → to_borsh (write_finish_params lib p) ≡ ok (ok (finish_params_bytes lib p))
  to_borsh-write_finish_params p ht = rw (write_finish_params-layout doc p ht) (
      to_borsh_fits _
        (omega (arith, length-finish_params_bytes doc p, IsAccount-bounds p.token_id ht)))

  pub to_borsh-account :
      (id : AccountId)
      → IsAccount id
      → to_borsh (AccountId.serialize lib id) ≡ ok (ok (encoding lib id))
  to_borsh-account id h =
      rw (serialize-encoding doc id h)
        (to_borsh_fits _ (omega (arith, length-encoding doc id, IsAccount-bounds id h)))
