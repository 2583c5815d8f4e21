-- ===== src/Forwarder/Contract/Ends/Complete.antt =====
-- Every call on a host in order (forwarder/src/lib.rs) goes through or ends in one of the listed ways.

use aurora_forwarder_contrac.Crates.{Crates, IsDocumented}
use aurora_forwarder_contrac.Forwarder.AccountId.{AccountId}
use aurora_forwarder_contrac.Forwarder.Contract.Exports.{Entry}
use aurora_forwarder_contrac.Forwarder.Host.Machine.{Machine}
use aurora_forwarder_contrac.Forwarder.Contract.Ends.{IsOrderly, CallEnds}
use aurora_forwarder_contrac.Forwarder.Contract.Ends.Begin.{new_ends, forward_ends, destroy_ends}
use aurora_forwarder_contrac.Forwarder.Contract.Ends.Callbacks.{
  balance_ends, fee_ends, callback_ends,
}

module _ {lib : Crates} (doc : IsDocumented lib) {self caller : AccountId} (m : Machine)
    (order : IsOrderly lib self caller m) where
  -- Every call ends in a known way. On a host in order, where the names in the context are valid, the
  -- integers and texts have their width, and storage holds no state or one that the contract can
  -- load, a call of any entry point, by whoever, with whatever input and promise results, goes
  -- through, or is one of the listed cases that panic, among them the one in which a promise result is
  -- missing and the host stops the call, or is the last callback of the contract
  -- itself with a fee whose text does not fit its buffer, which traps.
  pub enter-CallEnds : (e : Entry) → CallEnds lib self m e
  enter-CallEnds Entry.new = new_ends doc m order
  enter-CallEnds Entry.forward = forward_ends doc m order
  enter-CallEnds Entry.calculate_fees_callback =
      callback_ends doc m order Entry.calculate_fees_callback tt (λ own. own)
        (balance_ends doc m order)
  enter-CallEnds Entry.finish_forward_callback =
      callback_ends doc m order Entry.finish_forward_callback tt (λ own. own) (fee_ends doc m order)
  enter-CallEnds Entry.destroy = destroy_ends doc m order
