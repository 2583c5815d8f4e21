-- ===== src/Forwarder/Contract/Errors/All.antt =====
-- Every entry point (forwarder/src/lib.rs) in every case that ends in a panic before anything is
-- scheduled.
use aurora_forwarder_contrac.Forwarder.Contract.Transfers.{transfers-Refuses}
use aurora_forwarder_contrac.Base.{◌^◌, ◌≤◌, ◌<◌, ◌≡◌, codes, length, err, Panic, utf8, trap}
use aurora_forwarder_contrac.Crates.{Crates, IsDocumented, IoError}
use aurora_forwarder_contrac.Forwarder.AccountId.{AccountId}
use aurora_forwarder_contrac.Forwarder.Contract.{enter}
use aurora_forwarder_contrac.Forwarder.Contract.Destroy.{destroy-other}
use aurora_forwarder_contrac.Forwarder.Contract.Errors.{IsFault, IsAdmitted, parse_input}
use aurora_forwarder_contrac.Forwarder.Contract.Errors.Begin
use aurora_forwarder_contrac.Forwarder.Contract.Errors.Callbacks
use aurora_forwarder_contrac.Forwarder.Contract.Errors.Results
use aurora_forwarder_contrac.Forwarder.Contract.Exports.{Entry}
use aurora_forwarder_contrac.Forwarder.Contract.Finish.{reached, finish-goes_on}
use aurora_forwarder_contrac.Forwarder.Contract.Forward.{forward-one_yocto}
use aurora_forwarder_contrac.Forwarder.Contract.Init.{new-initialized}
use aurora_forwarder_contrac.Forwarder.Contract.Private.{callback-private}
use aurora_forwarder_contrac.Forwarder.Contract.Spec.{Refuses, over_host}
use aurora_forwarder_contrac.Forwarder.Host.{Host}
use aurora_forwarder_contrac.Forwarder.Host.Lawful.{IsLawful, seen, machine-IsLawful}
use aurora_forwarder_contrac.Forwarder.Host.Machine.{Machine, machine}
use aurora_forwarder_contrac.Forwarder.Runtime.Steps.{Ends}

module _ {lib : Crates} (doc : IsDocumented lib) (self : AccountId) (m : Machine) where
  long_input-Refuses :
      (e : Entry)
      → IsAdmitted self m e
      → 256 < length m.input_bytes
      → length m.input_bytes < 2 ^ 32
      → Ends (Refuses m trap) (enter machine lib e m)
  long_input-Refuses Entry.new = Begin.new-long_input lib m
  long_input-Refuses Entry.forward = Begin.forward-long_input lib m
  long_input-Refuses Entry.calculate_fees_callback =
      Callbacks.callback-long_input doc m Entry.calculate_fees_callback tt
  long_input-Refuses Entry.finish_forward_callback =
      Callbacks.callback-long_input doc m Entry.finish_forward_callback tt
  long_input-Refuses Entry.destroy = λ none_read. absurd none_read

  bad_input-Refuses :
      (e : Entry) {x : IoError}
      → IsAdmitted self m e
      → length m.input_bytes ≤ 256
      → parse_input lib e m.input_bytes ≡ err x
      → Ends (Refuses m (utf8 (codes "ERR_BORCH_DESERIALIZE"))) (enter machine lib e m)
  bad_input-Refuses Entry.new = Begin.new-bad_input lib m
  bad_input-Refuses Entry.forward = Begin.forward-bad_input lib m
  bad_input-Refuses Entry.calculate_fees_callback =
      Callbacks.callback-bad_input doc m Entry.calculate_fees_callback tt
  bad_input-Refuses Entry.finish_forward_callback =
      Callbacks.callback-bad_input doc m Entry.finish_forward_callback tt
  bad_input-Refuses Entry.destroy = λ none_read. absurd none_read

  pub fault-Refuses :
      {e : Entry} {p : Panic} → IsFault lib self m e p → Ends (Refuses m p) (enter machine lib e m)
  fault-Refuses (IsFault.initialized s ready) = record {
    holds = new-initialized machine-IsLawful doc m ready;
  }
  fault-Refuses (IsFault.no_yocto bounded other) = record {
    holds = forward-one_yocto machine-IsLawful doc m bounded other;
  }
  fault-Refuses (IsFault.other_caller e caller c valid here caller_valid calls differ) = record {
    holds = callback-private machine-IsLawful doc m e c valid here caller_valid calls differ;
  }
  fault-Refuses (IsFault.not_owner s caller ready valid calls stranger) = record {
    holds = destroy-other machine-IsLawful doc m ready valid calls stranger;
  }
  fault-Refuses (IsFault.long_input e admitted long addressable) =
      long_input-Refuses e admitted long addressable
  fault-Refuses (IsFault.bad_input e x admitted short unread) =
      bad_input-Refuses e admitted short unread
  fault-Refuses (IsFault.low_balance p r native low) = Begin.forward-low_balance m r native low
  fault-Refuses (IsFault.no_state_native p r native bounded enough absent) =
      Begin.forward-no_state m r native bounded enough absent
  fault-Refuses (IsFault.no_state_destroy absent) = Begin.destroy-no_state lib m absent
  fault-Refuses (IsFault.no_state e p c r absent) = Callbacks.callback-no_state doc m e p c r absent
  fault-Refuses (IsFault.no_result e s p c r ready absent) =
      Results.callback-no_result doc m e p c r ready absent
  fault-Refuses (IsFault.long_result e s p v c r ready found long addressable) =
      Results.callback-long_result doc m e p v c r ready found long addressable
  fault-Refuses (IsFault.failed_result e s p c r ready found) =
      Results.callback-failed_result doc m e p c r ready found
  fault-Refuses (IsFault.pending_result e s p c r ready found) =
      Results.callback-pending_result doc m e p c r ready found
  fault-Refuses (IsFault.bad_balance s p v x r ready found short bad) =
      Results.callback-bad_balance doc m p v r ready found short bad
  fault-Refuses (IsFault.bad_fee s p v x r ready found short bad) =
      Results.callback-bad_fee doc m p v r ready found short bad
  fault-Refuses (IsFault.long_state s r valid long) = Begin.new-long_state doc m r valid long
  fault-Refuses (IsFault.long_transfer s p v fee r ready fits found short read long) =
      finish-goes_on doc m p v r ready found short read
        (transfers-Refuses doc s p fee (reached lib s v m) fits ready.state.address long)

-- The calls that panic. Each case of `IsFault` ends the call with its panic and with nothing scheduled
-- or stored, on every lawful host, or the host stops it so: `new` on a contract in place, `forward` without one yoctoNEAR, a
-- callback by another account and `destroy` by one that is not the owner; an input that cannot be
-- read or has more than 256 bytes; native NEAR at or below the reserve; an account with no state;
-- and in a callback, which is called by the contract itself, a promise result that is missing, where
-- the host stops the call, or that is not ready, failed, longer than 256 bytes or not the number that it should be; and
-- a state or a transfer whose text is too long for its buffer.
pub enter-Refuses :
    {h : Host} {view : h.World → Machine} (law : IsLawful h view) {lib : Crates}
    (doc : IsDocumented lib) {self : AccountId} (w : h.World) {e : Entry} {p : Panic}
    → IsFault lib self (view w) e p
    → Refuses (view w) p (seen view (enter h lib e w))
enter-Refuses {view} law {lib} doc {self} w {e} {p} fault =
    over_host law lib e w (Refuses (view w) p) (fault-Refuses doc self (view w) fault)
