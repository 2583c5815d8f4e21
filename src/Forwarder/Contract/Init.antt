-- ===== src/Forwarder/Contract/Init.antt =====
-- `new` on a fresh account, on a contract in place, and on a state that is too long.
use aurora_forwarder_contrac.Base.{
  ◌<◌, ◌≤◌, ◌≡◌, refl, Option, none, some, [], ◌∷◌, ◌++◌, Bytes, codes, length, ok, err, bytes_eq,
  utf8, trap, arith,
}
use aurora_forwarder_contrac.Crates.{Crates, IsDocumented}
use aurora_forwarder_contrac.Forwarder.AccountId.{AccountId}
use aurora_forwarder_contrac.Forwarder.AccountId.Codec.{IsAccount, IsAccount-bounds}
use aurora_forwarder_contrac.Forwarder.Host.{Host}
use aurora_forwarder_contrac.Forwarder.Host.Machine.{
  Machine, machine, set_register, batch, add_key, update_key,
}
use aurora_forwarder_contrac.Forwarder.Host.Lawful.{IsLawful, seen}
use aurora_forwarder_contrac.Forwarder.Params.{
  State, state_storage_key, write_state, read_state, try_from_slice,
}
use aurora_forwarder_contrac.Forwarder.Params.Buffer.{to_borsh-write_state}
use aurora_forwarder_contrac.Forwarder.Params.RoundTrip.{read_state-bytes}
use aurora_forwarder_contrac.Forwarder.Runtime.Exec
use aurora_forwarder_contrac.Forwarder.Runtime.Io
use aurora_forwarder_contrac.Forwarder.Borsh.{to_borsh}
use aurora_forwarder_contrac.Forwarder.Runtime.Run.{
  load-run_none, read_input_borsh-full, read_input_borsh-run, current_account_id-run,
}
use aurora_forwarder_contrac.Forwarder.Runtime.Steps.{
  step, stop, last, unwrap-run, panic_utf8-run, pure-run, add_key-run, promise_return-run,
}
use aurora_forwarder_contrac.Forwarder.Contract.{enter, new, refuse_initialized}
use aurora_forwarder_contrac.Forwarder.Contract.Exports.{Entry}
use aurora_forwarder_contrac.Forwarder.Contract.Constants.{updater_pk}
use aurora_forwarder_contrac.Forwarder.Contract.Spec.{IsReady, load-ready, Refuses, over_host}
use aurora_forwarder_contrac.Forwarder.Params.Layout.{
  IsState, names_length, state_bytes, length-state_bytes,
}

-- The storage after a state has been saved.
abbrev pub stored_state : Crates → State → Machine → Bytes → Option Bytes
stored_state lib s m = update_key m.storage state_storage_key (some (state_bytes lib s))

-- The stored state is found again.
pub stored-found :
    (lib : Crates) (s : State) (m : Machine)
    → stored_state lib s m state_storage_key ≡ some (state_bytes lib s)
unfolding bytes_eq
stored-found lib s m = refl

module _ {lib : Crates} (doc : IsDocumented lib) where
  pub save-run :
      (s : State) (m : Machine)
      → IsState s
      → names_length s ≤ 220
      → m.storage state_storage_key ≡ none
      → Io.save machine lib s m ≡ (ok tt, record m { storage = stored_state lib s m })
  unfolding Io.save Io.write_borsh Io.store Io.write_storage Exec.◌>>=◌
  save-run s m valid fits absent =
      let whole : to_borsh (write_state lib s) ≡ ok (ok (state_bytes lib s)) =
        ground (arith, to_borsh-write_state doc s valid) in
      rw (whole, absent)

  -- A state that does not fit the buffer ends the call.
  pub save-full :
      (s : State) (m : Machine)
      → IsState s
      → 220 < names_length s
      → Io.save machine lib s m ≡ (err trap, m)
  unfolding Io.save Io.write_borsh Exec.◌>>=◌
  save-full s m valid long =
      let full : to_borsh (write_state lib s) ≡ err trap =
        ground (arith, to_borsh-write_state doc s valid) in
      rw full refl

module _ {h : Host} {view : h.World → Machine} (law : IsLawful h view) {lib : Crates}
    (doc : IsDocumented lib) where
  -- On an account with no state, a state with at most 220 bytes of names as input is stored under
  -- the contract's key and nowhere else, and one batch on this account is scheduled and returned,
  -- whose one action adds the updater's full access key.
  pub new-stores :
      (w : h.World) {self : AccountId} (s : State)
      → IsAccount self
      → (view w).current ≡ self.as_bytes
      → IsState s
      → names_length s ≤ 220
      → (view w).storage state_storage_key ≡ none
      → (view w).input_bytes ≡ state_bytes lib s
      → let (r, m') = seen view (enter h lib Entry.new w) in
        (r ≡ ok tt)
        × (m'.storage ≡ stored_state lib s (view w))
        × (m'.promises ≡ (view w).promises ++ batch self.as_bytes ∷ [])
        × (m'.actions ≡ (view w).actions ++ add_key (length (view w).promises) updater_pk 0 ∷ [])
        × (m'.returned ≡ some (length (view w).promises))
        × (m'.current ≡ (view w).current)
  unfolding enter new refuse_initialized
  new-stores w {self} s valid here state fits absent given =
      let m = view w in
      over_host law lib Entry.new w
        (λ o.
          (o.0 ≡ ok tt)
          × (o.1.storage ≡ stored_state lib s m)
          × (o.1.promises ≡ m.promises ++ batch self.as_bytes ∷ [])
          × (o.1.actions ≡ m.actions ++ add_key (length m.promises) updater_pk 0 ∷ [])
          × (o.1.returned ≡ some (length m.promises))
          × (o.1.current ≡ m.current))
        (step _ _ (load-run_none lib m absent) (
          step _ _ (pure-run _ _) (
            step _ _
              (read_input_borsh-run (try_from_slice (read_state lib)) m
                (rw given (omega (arith, length-state_bytes doc s state)))
                (rw given (read_state-bytes doc s state)))
              (step _ _ (unwrap-run _ _) (
                step _ _ (save-run doc s (set_register 1 m.input_bytes m) state fits absent) (
                  step _ _ (current_account_id-run doc self _ valid here) (
                    step _ _ (add_key-run _ _ _ _)
                      (last (promise_return-run _ _) (refl, refl, refl, refl, refl, refl)))))))))

  -- On a contract that is in place, `new` panics with `ERR_ALREADY_INITIALIZED` for every input, and
  -- nothing is scheduled or stored.
  pub new-initialized :
      (w : h.World) {self : AccountId} {s : State}
      → IsReady lib s self (view w)
      → Refuses
          (view w)
          (utf8 (codes "ERR_ALREADY_INITIALIZED"))
          (seen view (enter h lib Entry.new w))
  unfolding enter new refuse_initialized
  new-initialized w r =
      let m = view w in
      over_host law lib Entry.new w (Refuses m (utf8 (codes "ERR_ALREADY_INITIALIZED"))) (
        step _ _ (load-ready doc m r)
          (stop _ _ (panic_utf8-run _ _) (refl, refl, refl, refl, refl)))

  -- On an account with no state, a state whose names have more than 220 bytes together cannot be
  -- used: `new` traps, and nothing is scheduled or stored.
  pub new-too_long :
      (w : h.World) (s : State)
      → IsState s
      → 220 < names_length s
      → (view w).storage state_storage_key ≡ none
      → (view w).input_bytes ≡ state_bytes lib s
      → Refuses (view w) trap (seen view (enter h lib Entry.new w))
  unfolding enter new refuse_initialized
  new-too_long w s state long absent given =
      let m = view w in
      over_host law lib Entry.new w (Refuses m trap) (
        step _ _ (load-run_none lib m absent) (
          step _ _ (pure-run _ _) (
            stop _ _
              (read_input_borsh-full (try_from_slice (read_state lib)) m
                (rw given (omega (arith, length-state_bytes doc s state)))
                (rw given (omega (arith, length-state_bytes doc s state, bounds))))
              (refl, refl, refl, refl, refl))))
    where
      bounds : names_length s ≤ 256
      bounds = omega (
        arith,
        IsAccount-bounds s.target_network state.network,
        IsAccount-bounds s.wnear_contract_id state.wnear,
        IsAccount-bounds s.fees_contract_id state.fees,
        IsAccount-bounds s.owner_id state.owner,
      )
