-- ===== src/Forwarder/Contract/Destroy.antt =====
-- `destroy` called by the owner and by others (forwarder/src/lib.rs).
use aurora_forwarder_contrac.Base.{
  ◌≡◌, ◌≢◌, refl, sym, ap, true, false, some, [], ◌∷◌, codes, bytes_eq, bytes_eq_iff, length, utf8,
  arith,
}
use aurora_forwarder_contrac.Crates.{Crates, IsDocumented}
use aurora_forwarder_contrac.Forwarder.AccountId.{AccountId}
use aurora_forwarder_contrac.Forwarder.AccountId.Codec.{IsAccount}
use aurora_forwarder_contrac.Forwarder.Host.{Host}
use aurora_forwarder_contrac.Forwarder.Host.Machine.{Machine, batch, delete}
use aurora_forwarder_contrac.Forwarder.Host.Lawful.{IsLawful, seen}
use aurora_forwarder_contrac.Forwarder.Params.{State}
use aurora_forwarder_contrac.Forwarder.Runtime.Run.{
  predecessor_account_id-run, current_account_id-run,
}
use aurora_forwarder_contrac.Forwarder.Runtime.Steps.{
  step, stop, last, expect-run, panic_utf8-run, pure-run, delete_account-run, promise_return-run,
}
use aurora_forwarder_contrac.Forwarder.Contract.{enter, destroy}
use aurora_forwarder_contrac.Forwarder.Contract.Exports.{Entry}
use aurora_forwarder_contrac.Forwarder.Contract.Spec.{
  IsReady, load-ready, Schedules, Refuses, over_host,
}

module _ {h : Host} {view : h.World → Machine} (law : IsLawful h view) {lib : Crates}
    (doc : IsDocumented lib) (w : h.World) {s : State} {self caller : AccountId}
    (r : IsReady lib s self (view w)) (valid : IsAccount caller)
    (calls : (view w).predecessor ≡ caller.as_bytes) where
  -- Called by the owner, `destroy` schedules and returns one batch on this account, whose one action
  -- deletes the account in favour of the caller. Storage stays as it is.
  pub destroy-owner :
      caller.as_bytes ≡ s.owner_id.as_bytes
      → Schedules
          (view w)
          (batch self.as_bytes ∷ [])
          (delete (length (view w).promises) caller.as_bytes ∷ [])
          0
          (seen view (enter h lib Entry.destroy w))
  unfolding enter destroy
  destroy-owner owns =
      let m = view w in
      let test : bytes_eq s.owner_id.as_bytes caller.as_bytes ≡ true =
        (bytes_eq_iff _ _).1 (sym owns) in
      over_host law lib Entry.destroy w
        (Schedules m (batch self.as_bytes ∷ []) (delete (length m.promises) caller.as_bytes ∷ []) 0)
        (step _ _ (load-ready doc m r) (
          step _ _ (expect-run _ _ _) (
            step _ _ (predecessor_account_id-run doc caller _ valid calls) (
              rw test (
                step _ _ (pure-run _ _) (
                  step _ _ (current_account_id-run doc self _ r.valid r.here) (
                    step _ _ (delete_account-run _ _ _) (
                      last (promise_return-run _ _)
                        (refl, refl, refl, ap some (omega arith), refl)))))))))

  -- Called by any other account, `destroy` panics with `ONLY OWNER CAN DESTROY`, and nothing is
  -- scheduled or stored.
  pub destroy-other :
      caller.as_bytes ≢ s.owner_id.as_bytes
      → Refuses
          (view w)
          (utf8 (codes "ONLY OWNER CAN DESTROY"))
          (seen view (enter h lib Entry.destroy w))
  unfolding enter destroy
  destroy-other stranger =
      let m = view w in
      let test : bytes_eq s.owner_id.as_bytes caller.as_bytes ≡ false =
        ground (arith, bytes_eq_iff s.owner_id.as_bytes caller.as_bytes, stranger) in
      over_host law lib Entry.destroy w (Refuses m (utf8 (codes "ONLY OWNER CAN DESTROY"))) (
        step _ _ (load-ready doc m r) (
          step _ _ (expect-run _ _ _) (
            step _ _ (predecessor_account_id-run doc caller _ valid calls)
              (rw test (stop _ _ (panic_utf8-run _ _) (refl, refl, refl, refl, refl))))))
