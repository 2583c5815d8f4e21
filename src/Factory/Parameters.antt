-- ===== src/Factory/Parameters.antt =====
-- The parameters that the factory writes and the state that a forwarder's `new` reads from them.
use aurora_forwarder_contrac.Base.{◌≡◌, Bytes, ok, arith}
use aurora_forwarder_contrac.Crates.{Crates, IsDocumented}
use aurora_forwarder_contrac.Factory.{ForwarderParameters, write_parameters}
use aurora_forwarder_contrac.Forwarder.AccountId.Codec.{IsAccount-bounds}
use aurora_forwarder_contrac.Forwarder.Params.{State, try_from_slice, read_state}
use aurora_forwarder_contrac.Forwarder.Params.Layout.{IsState, state_bytes}
use aurora_forwarder_contrac.Forwarder.Params.RoundTrip.{read_state-bytes}

-- The factory's parameters for a forwarder's state.
abbrev pub parameters_of : State → ForwarderParameters
parameters_of s = record {
  target_address = s.target_address.raw;
  target_network = s.target_network.as_bytes;
  wnear_contract_id = s.wnear_contract_id.as_bytes;
  fees_contract_id = s.fees_contract_id.as_bytes;
  owner_id = s.owner_id.as_bytes;
}

module _ {lib : Crates} (doc : IsDocumented lib) where
  pub write_parameters-layout :
      (s : State) → IsState s → write_parameters lib (parameters_of s) ≡ ok (state_bytes lib s)
  unfolding write_parameters
  write_parameters-layout s h = rw (
    doc.str_layout s.target_network.as_bytes
        (omega (arith, IsAccount-bounds s.target_network h.network)),
    doc.str_layout s.wnear_contract_id.as_bytes
        (omega (arith, IsAccount-bounds s.wnear_contract_id h.wnear)),
    doc.str_layout s.fees_contract_id.as_bytes
        (omega (arith, IsAccount-bounds s.fees_contract_id h.fees)),
    doc.str_layout s.owner_id.as_bytes (omega (arith, IsAccount-bounds s.owner_id h.owner)),
  )

  -- The arguments that the factory writes for valid names and an address of twenty bytes are read
  -- by the forwarder's `new` as the state with these names and this address.
  pub read_state-write_parameters :
      (s : State)
      → IsState s
      → (args : Bytes) × (write_parameters lib (parameters_of s) ≡ ok args)
        × (try_from_slice (read_state lib) args ≡ ok s)
  read_state-write_parameters s h =
      (state_bytes lib s, write_parameters-layout s h, read_state-bytes doc s h)
