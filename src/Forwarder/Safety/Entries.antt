-- ===== src/Forwarder/Safety/Entries.antt =====
-- The entry points of a forwarder in place keep what has been scheduled within what is allowed.

use aurora_forwarder_contrac.Crates.{Crates, IsDocumented}
use aurora_forwarder_contrac.Forwarder.AccountId.{AccountId}
use aurora_forwarder_contrac.Forwarder.Contract.{enter}
use aurora_forwarder_contrac.Forwarder.Contract.Exports.{Entry}
use aurora_forwarder_contrac.Forwarder.Host.Machine.{Machine, machine}
use aurora_forwarder_contrac.Forwarder.Params.{State}
use aurora_forwarder_contrac.Forwarder.Invariant.Entries.{
  forward-Keeps, calculate_fees_callback-Keeps, finish_forward_callback-Keeps, destroy-Keeps,
  new-Keeps,
}
use aurora_forwarder_contrac.Forwarder.Safety.{IsSafe}
use aurora_forwarder_contrac.Forwarder.Safety.Runtime.{load-Upholds, policy_of_state}

module _ {lib : Crates} (doc : IsDocumented lib) {s : State} {self : AccountId} where
  -- Every entry point keeps a contract in place as it is, with the same state, and schedules only
  -- what is allowed, whoever calls, whatever the input and the promise results are, and also where
  -- it panics.
  pub enter-IsSafe :
      (e : Entry) (m : Machine) → IsSafe lib s self m → IsSafe lib s self (enter machine lib e m).1
  unfolding enter
  enter-IsSafe Entry.new m h = ((new-Keeps lib s (load-Upholds doc)).at m h).0
  enter-IsSafe Entry.forward m h = ((forward-Keeps (policy_of_state doc)).at m h).0
  enter-IsSafe Entry.calculate_fees_callback m h =
      ((calculate_fees_callback-Keeps (policy_of_state doc)).at m h).0
  enter-IsSafe Entry.finish_forward_callback m h =
      ((finish_forward_callback-Keeps (policy_of_state doc)).at m h).0
  enter-IsSafe Entry.destroy m h =
      ((destroy-Keeps (policy_of_state doc) (λ t a good allowed. rw good at allowed)).at m h).0
