-- ===== src/Forwarder/Contract/Private.antt =====
-- The guard of the two callbacks (forwarder/src/lib.rs).
use aurora_forwarder_contrac.Base.{◌≡◌, ◌≢◌, refl, codes, utf8}
use aurora_forwarder_contrac.Crates.{Crates, IsDocumented}
use aurora_forwarder_contrac.Forwarder.AccountId.{AccountId}
use aurora_forwarder_contrac.Forwarder.AccountId.Codec.{IsAccount}
use aurora_forwarder_contrac.Forwarder.Error.{private_call_error, message}
use aurora_forwarder_contrac.Forwarder.Host.{Host}
use aurora_forwarder_contrac.Forwarder.Host.Machine.{Machine, machine}
use aurora_forwarder_contrac.Forwarder.Host.Lawful.{IsLawful, seen}
use aurora_forwarder_contrac.Forwarder.Runtime.Run.{assert_private_call-other}
use aurora_forwarder_contrac.Forwarder.Runtime.Steps.{Ends, step, stop, unwrap_err-run}
use aurora_forwarder_contrac.Forwarder.Contract.{
  enter, calculate_fees_callback, finish_forward_callback,
}
use aurora_forwarder_contrac.Forwarder.Contract.Exports.{Entry}
use aurora_forwarder_contrac.Forwarder.Contract.Spec.{Refuses, over_host}

-- The entry points that are callbacks.
abbrev pub IsCallback : Entry → Type 0
IsCallback Entry.calculate_fees_callback = Unit
IsCallback Entry.finish_forward_callback = Unit
IsCallback Entry.new = ⊥
IsCallback Entry.forward = ⊥
IsCallback Entry.destroy = ⊥

module _ {lib : Crates} (doc : IsDocumented lib) {self caller : AccountId} (m : Machine)
    (valid : IsAccount self) (here : m.current ≡ self.as_bytes) (caller_valid : IsAccount caller)
    (calls : m.predecessor ≡ caller.as_bytes) (differ : caller.as_bytes ≢ self.as_bytes) where
  guard-Refuses :
      (e : Entry)
      → IsCallback e
      → Ends (Refuses m (utf8 (message private_call_error))) (enter machine lib e m)
  unfolding enter calculate_fees_callback finish_forward_callback
  guard-Refuses Entry.calculate_fees_callback _ =
      step _ _ (assert_private_call-other doc self caller m valid here caller_valid calls differ)
        (stop _ _ (unwrap_err-run _ _) (refl, refl, refl, refl, refl))
  guard-Refuses Entry.finish_forward_callback _ =
      step _ _ (assert_private_call-other doc self caller m valid here caller_valid calls differ)
        (stop _ _ (unwrap_err-run _ _) (refl, refl, refl, refl, refl))
  guard-Refuses Entry.new h = absurd h
  guard-Refuses Entry.forward h = absurd h
  guard-Refuses Entry.destroy h = absurd h

-- A callback that any other account calls panics with `ERR_PRIVATE_CALL`, whatever its input and the
-- promise results are, and nothing is scheduled or stored.
pub callback-private :
    {h : Host} {view : h.World → Machine} (law : IsLawful h view) {lib : Crates}
    (doc : IsDocumented lib) (w : h.World) (e : Entry) {self caller : AccountId}
    → IsCallback e
    → IsAccount self
    → (view w).current ≡ self.as_bytes
    → IsAccount caller
    → (view w).predecessor ≡ caller.as_bytes
    → caller.as_bytes ≢ self.as_bytes
    → Refuses (view w) (utf8 (codes "ERR_PRIVATE_CALL")) (seen view (enter h lib e w))
callback-private {view} law {lib} doc w e c valid here caller_valid calls differ =
    over_host law lib e w (Refuses (view w) (utf8 (codes "ERR_PRIVATE_CALL")))
      (guard-Refuses doc (view w) valid here caller_valid calls differ e c)
