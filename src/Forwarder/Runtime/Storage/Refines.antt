-- ===== src/Forwarder/Runtime/Storage/Refines.antt =====
-- Any sequence of storage operations over any lawful host (forwarder/src/runtime/io.rs).
use aurora_forwarder_contrac.Base.{
  ℕ, ◌≤◌, ◌≡◌, refl, ap, sym, Option, none, some, List, [], ◌∷◌, Bytes, length, All, ok, ◌==◌,
}
use mathlib.Core.Path.{subst}
use aurora_forwarder_contrac.Base.Results.{Outcome}
use aurora_forwarder_contrac.Forwarder.Host.{Host}
use aurora_forwarder_contrac.Forwarder.Host.Lawful.{IsLawful}
use aurora_forwarder_contrac.Forwarder.Host.Machine.{Machine, machine}
use aurora_forwarder_contrac.Forwarder.Runtime.Exec
use aurora_forwarder_contrac.Forwarder.Runtime.Exec.{◌>>=◌}
use aurora_forwarder_contrac.Forwarder.Runtime.Io
use aurora_forwarder_contrac.Forwarder.Runtime.Sim.{Sim, Sim-ask, Sim-call, Sim-bind, sim_rules}
use aurora_forwarder_contrac.Forwarder.Runtime.Sim.Calls.{
  to_vec-Sim, len-Sim, read_input-Sim, read_storage-Sim, write_storage-Sim,
}
use aurora_forwarder_contrac.Forwarder.Runtime.Storage.{
  StorageOp, read, has_key, size, write, write_input, remove, Reply, replay, fetch, do_op, do_ops,
  IsShortValue, IsShortOp,
}
use aurora_forwarder_contrac.Forwarder.Runtime.Storage.Steps.{apply-short, do_op-machine}

module _ {h : Host} {view : h.World → Machine} (law : IsLawful h view) where
  fetch-Sim : (o : Option ℕ) → Sim view (fetch h o) (fetch machine o)
  unfolding fetch
  fetch-Sim none = search sim_rules
  fetch-Sim (some r) = search (sim_rules, to_vec-Sim law)

  size_of-Sim : (o : Option ℕ) → Sim view (Io.size_of h o) (Io.size_of machine o)
  unfolding Io.size_of
  size_of-Sim none = search sim_rules
  size_of-Sim (some r) = search (sim_rules, len-Sim law)

  storage_has_key-Sim :
      (k : Bytes) → Sim view (Io.storage_has_key h k) (Io.storage_has_key machine k)
  unfolding Io.storage_has_key
  storage_has_key-Sim k = Sim-ask _ _ (λ w. ap (λ n. n == 1) (law.storage_has_key_lem k w))

  write_storage_direct-Sim :
      (k : Bytes) (r : ℕ)
      → Sim view (Io.write_storage_direct h k r) (Io.write_storage_direct machine k r)
  unfolding Io.write_storage_direct
  write_storage_direct-Sim k r =
      Sim-bind (Sim-call _ _ (law.storage_write_register_lem k r 2)) (λ _. search sim_rules)

  remove_storage-Sim : (k : Bytes) → Sim view (Io.remove_storage h k) (Io.remove_storage machine k)
  unfolding Io.remove_storage
  remove_storage-Sim k =
      Sim-bind (Sim-call _ _ (law.storage_remove_lem k 3)) (λ _. search sim_rules)

  read_input_and_store-Sim :
      (k : Bytes) → Sim view (Io.read_input_and_store h k) (Io.read_input_and_store machine k)
  unfolding Io.read_input_and_store
  read_input_and_store-Sim k =
      Sim-bind (read_input-Sim law)
        (λ r. Sim-bind (write_storage_direct-Sim k r) (λ _. search sim_rules))

  do_op-Sim : (x : StorageOp) → Sim view (do_op h x) (do_op machine x)
  unfolding do_op Io.read_storage_len
  do_op-Sim (read k) = search (sim_rules, read_storage-Sim law, fetch-Sim)
  do_op-Sim (has_key k) = search (sim_rules, storage_has_key-Sim)
  do_op-Sim (size k) = search (sim_rules, read_storage-Sim law, size_of-Sim)
  do_op-Sim (write k v) = search (sim_rules, write_storage-Sim law, fetch-Sim)
  do_op-Sim (write_input k) = search (sim_rules, read_input_and_store-Sim)
  do_op-Sim (remove k) = search (sim_rules, remove_storage-Sim, fetch-Sim)

  do_ops-Sim : (xs : List StorageOp) → Sim view (do_ops h xs) (do_ops machine xs)
  unfolding do_ops
  do_ops-Sim [] = search sim_rules
  do_ops-Sim (x ∷ xs) = search (sim_rules, do_op-Sim x, do_ops-Sim xs)

-- What the replies and storage are at the end.
abbrev IsReplayed : List StorageOp → Machine → Outcome (List Reply) × Machine → Type 0
IsReplayed xs m o =
    (o.0 ≡ ok (replay m.input_bytes xs m.storage).0)
    × (o.1.storage ≡ (replay m.input_bytes xs m.storage).1)

do_ops-machine :
    (xs : List StorageOp) (m : Machine)
    → length m.input_bytes ≤ 256
    → All IsShortOp xs
    → ((j : Bytes) → IsShortValue (m.storage j))
    → IsReplayed xs m (do_ops machine xs m)
unfolding do_ops replay ◌>>=◌ Exec.pure
do_ops-machine [] m input ops short = (refl, refl)
do_ops-machine (x ∷ xs) m input (op, ops) short =
    let (m', runs, storage, same) = do_op-machine x m short in
    let rest : IsReplayed xs m' (do_ops machine xs m') =
      do_ops-machine xs m' (rw same input) ops
        (λ j. rw storage (apply-short m.input_bytes x m.storage input op short j)) in
    let (replies, left) = rw (same, storage) at rest in rw (runs) (rw (replies) (refl, left))

-- A client of storage sees a map. On any lawful host whose stored values and input have at most 256
-- bytes, any sequence of storage operations, which writes values of at most 256 bytes, goes through,
-- gives the replies that a map from keys to values gives, and leaves storage as it leaves the map:
-- reads, tests and lengths of a key, writes of a value and of the input, and removals, with the old
-- value of each write and removal.
pub do_ops-replay :
    {h : Host} {view : h.World → Machine} (law : IsLawful h view) (xs : List StorageOp)
    (w : h.World)
    → length (view w).input_bytes ≤ 256
    → ((k : Bytes) → IsShortValue ((view w).storage k))
    → All IsShortOp xs
    → let (replies, w') = do_ops h xs w in
      let (expected, stored) = replay (view w).input_bytes xs (view w).storage in
      (replies ≡ ok expected) × ((view w').storage ≡ stored)
do_ops-replay {view} law xs w input short ops =
    subst (IsReplayed xs (view w)) (sym ((do_ops-Sim law xs).at w))
      (do_ops-machine xs (view w) input ops short)
