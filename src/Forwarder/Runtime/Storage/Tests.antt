-- ===== src/Forwarder/Runtime/Storage/Tests.antt =====
-- The storage operations at a concrete sequence.
use aurora_forwarder_contrac.Base.{◌≡◌, List, [], ◌∷◌, codes, ok, arith}
use aurora_forwarder_contrac.Forwarder.Fixtures.{owner_near, fresh}
use aurora_forwarder_contrac.Forwarder.Host.Lawful.{machine-IsLawful}
use aurora_forwarder_contrac.Forwarder.Host.Machine.{Machine, machine}
use aurora_forwarder_contrac.Forwarder.Runtime.Storage.{
  StorageOp, read, has_key, size, write, write_input, remove, do_ops, replay,
}
use aurora_forwarder_contrac.Forwarder.Runtime.Storage.Refines.{do_ops-replay}

abbrev some_ops : List StorageOp
some_ops =
    write (codes "a") (codes "one")
    ∷ write_input (codes "b")
    ∷ write (codes "a") (codes "two")
    ∷ size (codes "b")
    ∷ remove (codes "a")
    ∷ has_key (codes "a")
    ∷ read (codes "b")
    ∷ []

abbrev empty_storage : Machine
empty_storage = fresh owner_near 0 (codes "input") []

do_ops-replay_example :
    let (replies, m') = do_ops machine some_ops empty_storage in
    let (expected, stored) = replay (codes "input") some_ops empty_storage.storage in
    (replies ≡ ok expected) × (m'.storage ≡ stored)
do_ops-replay_example =
    do_ops-replay machine-IsLawful some_ops empty_storage (omega arith) (λ k. tt)
      (omega arith, (tt, (omega arith, (tt, (tt, (tt, (tt, tt)))))))
