-- ===== src/Forwarder/Contract/Finish.antt =====
-- `finish_forward_callback`: the transfers for a fee, without one, and where they do not fit
-- (forwarder/src/lib.rs).
use aurora_forwarder_contrac.Base.{
  ℕ, ◌+◌, ◌-◌, ◌^◌, ◌<◌, ◌≤◌, ◌≡◌, ap, some, [], ◌∷◌, append-nil, Bytes, length, map_err, ok, trap,
  arith,
}
use aurora_forwarder_contrac.Base.Results.{Outcome}
use aurora_forwarder_contrac.Crates.{Crates, IsDocumented}
use aurora_forwarder_contrac.Forwarder.AccountId.{AccountId}
use aurora_forwarder_contrac.Forwarder.AccountId.Codec.{IsAccount, IsAccount-bounds}
use aurora_forwarder_contrac.Forwarder.Error.{borsh_deserialize_error}
use aurora_forwarder_contrac.Forwarder.Host.{Host}
use aurora_forwarder_contrac.Forwarder.Host.Machine.{Machine, machine, set_register, result_at}
use aurora_forwarder_contrac.Forwarder.Host.Lawful.{IsLawful, seen}
use aurora_forwarder_contrac.Forwarder.Params.{State, FinishForwardParams, try_from_slice}
use aurora_forwarder_contrac.Forwarder.Params.RoundTrip.{read_finish_params-bytes}
use aurora_forwarder_contrac.Forwarder.Runtime.Run.{promise_result-successful}
use aurora_forwarder_contrac.Forwarder.Runtime.Steps.{Ends, step, unwrap_of-run, expect-run}
use aurora_forwarder_contrac.Forwarder.Contract.{
  enter, finish_forward_callback, fee_of_result, transfers,
}
use aurora_forwarder_contrac.Forwarder.Contract.Errors.{IsRead}
use aurora_forwarder_contrac.Forwarder.Contract.Errors.Callbacks.{callback-goes_on, state_read}
use aurora_forwarder_contrac.Forwarder.Contract.Exports.{Entry}
use aurora_forwarder_contrac.Forwarder.Contract.Spec.{IsReady, Schedules, Refuses, over_host}
use aurora_forwarder_contrac.Forwarder.Params.Layout.{
  finish_params_bytes, length-finish_params_bytes,
}
use aurora_forwarder_contrac.Forwarder.Decimal.Print.{decimal}
use aurora_forwarder_contrac.Forwarder.Promise.{successful}
use aurora_forwarder_contrac.Forwarder.Contract.Transfers.{
  transfers-Refuses, transfers-whole, transfers-split,
}
pub use aurora_forwarder_contrac.Forwarder.Contract.Transfers.{transfer_of, fee_transfer}

-- The call of `finish_forward_callback` by the contract itself, with `p` as input and the fee as
-- the promise result that `p` names.
pub record IsFinish (lib : Crates) (s : State) (self : AccountId) (p : FinishForwardParams)
    (fee : ℕ) (m : Machine) : Type 0 where
  pub ready : IsReady lib s self m
  pub caller : m.predecessor ≡ self.as_bytes
  pub amount_fits : p.amount < 2 ^ 128
  pub token : IsAccount p.token_id
  pub index_fits : p.promise_idx < 2 ^ 64
  pub given : m.input_bytes ≡ finish_params_bytes lib p
  pub fee_fits : fee < 2 ^ 128
  pub result : result_at m.results p.promise_idx ≡ some (successful (lib.write_u128 fee))

-- The state of the host when the transfers begin.
abbrev pub reached : Crates → State → Bytes → Machine → Machine
reached lib s v m = set_register 5 v (state_read lib s m)

-- A fee that can be read leads to the transfers, whatever bytes the parameters were read from.
pub finish-goes_on :
    {lib : Crates} (doc : IsDocumented lib) (m : Machine) {s : State} {self : AccountId}
    (p : FinishForwardParams) (v : Bytes) {fee : ℕ} {Q : Outcome (Unit {0}) × Machine → Type 0}
    → IsRead lib self m Entry.finish_forward_callback p
    → IsReady lib s self m
    → result_at m.results p.promise_idx ≡ some (successful v)
    → length v ≤ 256
    → try_from_slice lib.read_u128 v ≡ ok fee
    → Ends Q (transfers machine lib s p fee (reached lib s v m))
    → Ends Q (enter machine lib Entry.finish_forward_callback m)
unfolding enter finish_forward_callback fee_of_result
finish-goes_on doc m p v r ready result short read rest =
    callback-goes_on doc _ _ m r.admitted r.short r.parsed ready (
      step _ _ (promise_result-successful p.promise_idx v _ result short) (
        step _ _ (expect-run _ _ _)
          (step _ _ (unwrap_of-run _ (ap (map_err (λ _. borsh_deserialize_error)) read)) rest)))

read_fee :
    {lib : Crates} (doc : IsDocumented lib) (fee : ℕ)
    → fee < 2 ^ 128
    → try_from_slice lib.read_u128 (lib.write_u128 fee) ≡ ok fee
read_fee doc fee h = rw ((rw append-nil at (doc.u128_back fee [] h)), try_from_slice)

module _ {lib : Crates} (doc : IsDocumented lib) {s : State} {self : AccountId}
    {p : FinishForwardParams} {fee : ℕ} where
  -- Up to the transfers, a call in order only reads.
  finish_prefix :
      (m : Machine) (Q : Outcome (Unit {0}) × Machine → Type 0)
      → IsFinish lib s self p fee m
      → Ends Q (transfers machine lib s p fee (reached lib s (lib.write_u128 fee) m))
      → Ends Q (enter machine lib Entry.finish_forward_callback m)
  finish_prefix m Q f rest =
      let is_read : IsRead lib self m Entry.finish_forward_callback p = record {
        admitted = record { valid = f.ready.valid; here = f.ready.here; caller = f.caller };
        short =
            rw f.given (
              omega (arith, length-finish_params_bytes doc p, IsAccount-bounds p.token_id f.token));
        parsed = rw f.given (read_finish_params-bytes doc p f.amount_fits f.token f.index_fits);
      } in
      finish-goes_on doc m p (lib.write_u128 fee) is_read f.ready f.result
        (omega (arith, doc.u128_length fee)) (read_fee doc fee f.fee_fits) rest

module _ {h : Host} {view : h.World → Machine} (law : IsLawful h view) {lib : Crates}
    (doc : IsDocumented lib) (w : h.World) {s : State} {self : AccountId} {p : FinishForwardParams}
    {fee : ℕ} (f : IsFinish lib s self p fee (view w)) where
  -- A call of `finish_forward_callback` in order, with a positive fee, schedules exactly two
  -- promises: the transfer of the amount less the fee (or of nothing, if the fee is higher) to the
  -- target network for the target address, and after it the transfer of the fee to the fees
  -- contract. It returns the second and leaves storage as it is. This holds if the network's name
  -- and the digits of the transferred amount have at most 49 bytes together, and the fees contract's
  -- name and the digits of the fee at most 98.
  pub finish-split :
      0 < fee
      → length s.target_network.as_bytes + length (decimal (p.amount - fee)) ≤ 49
      → length s.fees_contract_id.as_bytes + length (decimal fee) ≤ 98
      → Schedules
          (view w)
          (transfer_of lib s p fee ∷ fee_transfer s p fee (length (view w).promises) ∷ [])
          []
          1
          (seen view (enter h lib Entry.finish_forward_callback w))
  finish-split due short fee_short =
      let m = view w in
      over_host law lib Entry.finish_forward_callback w
        (Schedules m (transfer_of lib s p fee ∷ fee_transfer s p fee (length m.promises) ∷ []) [] 1)
        (finish_prefix doc m _ f (
          transfers-split doc s p fee (reached lib s (lib.write_u128 fee) m) f.amount_fits
            f.ready.state.address short due f.fee_fits fee_short))

  -- A call of `finish_forward_callback` in order, with a fee of zero, schedules and returns exactly
  -- one promise, the transfer of the whole amount to the target network, and leaves storage as it
  -- is. This holds if the network's name and the digits of the amount have at most 49 bytes
  -- together.
  pub finish-whole :
      fee ≡ 0
      → length s.target_network.as_bytes + length (decimal (p.amount - fee)) ≤ 49
      → Schedules
          (view w)
          (transfer_of lib s p fee ∷ [])
          []
          0
          (seen view (enter h lib Entry.finish_forward_callback w))
  finish-whole none_due short =
      let m = view w in
      over_host law lib Entry.finish_forward_callback w
        (Schedules m (transfer_of lib s p fee ∷ []) [] 0)
        (finish_prefix doc m _ f (
          transfers-whole doc s p fee (reached lib s (lib.write_u128 fee) m) f.amount_fits
            f.ready.state.address short none_due))

  -- If the network's name and the digits of the amount to transfer have more than 49 bytes together,
  -- a call of `finish_forward_callback` that is in order otherwise traps with nothing scheduled or
  -- stored, whatever the fee is.
  pub finish-too_long :
      49 < length s.target_network.as_bytes + length (decimal (p.amount - fee))
      → Refuses (view w) trap (seen view (enter h lib Entry.finish_forward_callback w))
  finish-too_long long =
      let m = view w in
      over_host law lib Entry.finish_forward_callback w (Refuses m trap) (
        finish_prefix doc m _ f (
          transfers-Refuses doc s p fee (reached lib s (lib.write_u128 fee) m) f.amount_fits
            f.ready.state.address long))
