-- ===== src/Forwarder/Params/Valid.antt =====
-- What comes out of the readers of forwarder/src/params.rs is valid, whatever bytes they read.
use aurora_forwarder_contrac.Base.{ℕ, ◌≡◌, ◌<◌, ◌^◌, [], Bytes, Result, ok, All, arith}
use aurora_forwarder_contrac.Base.Results.{bind_ok}
use aurora_forwarder_contrac.Crates.{Crates, IsDocumented, IsByte, IoError}
use aurora_forwarder_contrac.Forwarder.AccountId
use aurora_forwarder_contrac.Forwarder.AccountId.Codec.{IsAccount, deserialize_reader-IsAccount}
use aurora_forwarder_contrac.Forwarder.Address
use aurora_forwarder_contrac.Forwarder.Params.{
  State, ForwardParams, FinishForwardParams, read_state, read_forward_params, read_finish_params,
  try_from_slice,
}
use aurora_forwarder_contrac.Forwarder.Params.Layout.{IsState}

-- What a slice holds has been read to its end.
slice_read :
    {A : Type 0} (reader : Bytes → Result IoError (A × Bytes)) (v : Bytes) {a : A}
    → try_from_slice reader v ≡ ok a
    → reader v ≡ ok (a, [])
slice_read reader v h = ground arith

pair_ok :
    {A : Type 0} {a a' : A} {b b' : Bytes}
    → ◌≡◌ {A = Result IoError (A × Bytes)} (ok (a, b)) (ok (a', b'))
    → a' ≡ a
pair_ok h = cc

module _ {lib : Crates} (doc : IsDocumented lib) where
  -- Whatever bytes are read as a state, the state is valid: its names are valid account names, and
  -- its address has twenty bytes.
  pub read_state-IsState :
      (v : Bytes) {s : State} → try_from_slice (read_state lib) v ≡ ok s → IsState s
  unfolding read_state
  read_state-IsState v {s} h =
      let (a, is_a, rest_a) =
        bind_ok (Address.deserialize_reader v) (slice_read (read_state lib) v h) in
      let (b, is_b, rest_b) = bind_ok (AccountId.deserialize_reader lib a.1) rest_a in
      let (c, is_c, rest_c) = bind_ok (AccountId.deserialize_reader lib b.1) rest_b in
      let (d, is_d, rest_d) = bind_ok (AccountId.deserialize_reader lib c.1) rest_c in
      let (e, is_e, rest_e) = bind_ok (AccountId.deserialize_reader lib d.1) rest_d in
      rw (pair_ok rest_e) (record {
        address = Address.deserialize_reader-IsAddress v is_a;
        network = deserialize_reader-IsAccount doc a.1 b.1 is_b;
        wnear = deserialize_reader-IsAccount doc b.1 c.1 is_c;
        fees = deserialize_reader-IsAccount doc c.1 d.1 is_d;
        owner = deserialize_reader-IsAccount doc d.1 e.1 is_e;
      })

  -- Whatever bytes are read as the token to forward, its name is valid.
  pub read_forward_params-IsAccount :
      (v : Bytes) {p : ForwardParams}
      → try_from_slice (read_forward_params lib) v ≡ ok p
      → IsAccount p.token_id
  unfolding read_forward_params
  read_forward_params-IsAccount v {p} h =
      let (a, is_a, rest) =
        bind_ok (AccountId.deserialize_reader lib v) (slice_read (read_forward_params lib) v h) in
      rw (pair_ok rest) (deserialize_reader-IsAccount doc v a.1 is_a)

  -- Whatever bytes are read as the parameters of the last callback, the amount is a u128.
  pub read_finish_params-lt :
      (v : Bytes) {p : FinishForwardParams}
      → All IsByte v
      → try_from_slice (read_finish_params lib) v ≡ ok p
      → p.amount < 2 ^ 128
  unfolding read_finish_params
  read_finish_params-lt v {p} bytes h =
      let (a, is_a, rest_a) = bind_ok (lib.read_u128 v) (slice_read (read_finish_params lib) v h) in
      let (b, is_b, rest_b) = bind_ok (AccountId.deserialize_reader lib a.1) rest_a in
      let (c, is_c, rest_c) = bind_ok (lib.read_u64 b.1) rest_b in
      rw (pair_ok rest_c) (doc.u128_fits v a.1 a.0 bytes is_a)

  -- A fee is a u128.
  pub read_fee-lt :
      (v : Bytes) {fee : ℕ} → All IsByte v → try_from_slice lib.read_u128 v ≡ ok fee → fee < 2 ^ 128
  read_fee-lt v {fee} bytes h = doc.u128_fits v [] fee bytes (slice_read lib.read_u128 v h)
