-- ===== src/Forwarder/Runtime/Storage/Steps.antt =====
-- One storage operation on the machine.
use aurora_forwarder_contrac.Base.{
  ℕ, ◌≤◌, ◌≡◌, refl, Bool, true, false, Option, none, some, Bytes, length, ok, bytes_eq,
  if◌then◌else◌, ◌==◌, ==_iff,
}
use aurora_forwarder_contrac.Forwarder.Host.Machine.{
  Machine, machine, found, has, set_register, set_key, update_key,
}
use aurora_forwarder_contrac.Forwarder.Runtime.Exec
use aurora_forwarder_contrac.Forwarder.Runtime.Exec.{◌>>=◌}
use aurora_forwarder_contrac.Forwarder.Runtime.Io
use aurora_forwarder_contrac.Forwarder.Runtime.Io.{when_one}
use aurora_forwarder_contrac.Forwarder.Runtime.Run.{to_vec-run, register_usize-short}
use aurora_forwarder_contrac.Forwarder.Runtime.Storage.{
  StorageOp, read, has_key, size, write, write_input, remove, flag, is_some, length_of, apply,
  fetch, do_op, IsShortValue, IsShortOp,
}

register_set : (r : ℕ) (v : Bytes) (m : Machine) → (set_register r v m).registers r ≡ some v
register_set r v m = rw ((==_iff r r).1 refl)

-- An old value is fetched from the register that the host has put it in, and so is its length.
fetch-found :
    (o : Option Bytes) (r : ℕ) (m : Machine)
    → IsShortValue o
    → fetch machine (when_one r (found o r m).0) (found o r m).1 ≡ (ok o, (found o r m).1)
unfolding fetch ◌>>=◌
fetch-found none r m short = refl
fetch-found (some v) r m short =
    rw (to_vec-run r v (set_register r v m) (register_set r v m) short) refl

size_of-found :
    (o : Option Bytes) (r : ℕ) (m : Machine)
    → IsShortValue o
    → Io.size_of machine (when_one r (found o r m).0) (found o r m).1
      ≡ (ok (length_of o), (found o r m).1)
unfolding Io.size_of Io.len ◌>>=◌
size_of-found none r m short = refl
size_of-found (some v) r m short =
    rw (register_set r v m, register_usize-short (length v) short) refl

has-is_some : (o : Option Bytes) → (has o == 1) ≡ is_some o
has-is_some none = refl
has-is_some (some v) = refl

-- A register is no part of storage or input.
found-kept :
    (o : Option Bytes) (r : ℕ) (m : Machine)
    → ((found o r m).1.storage ≡ m.storage) × ((found o r m).1.input_bytes ≡ m.input_bytes)
found-kept none r m = (refl, refl)
found-kept (some v) r m = (refl, refl)

-- Replacing a value by a short one leaves the values short.
pub update_key-short :
    (f : Bytes → Option Bytes) (k : Bytes) (o : Option Bytes)
    → IsShortValue o
    → ((j : Bytes) → IsShortValue (f j))
    → (j : Bytes) → IsShortValue (update_key f k o j)
update_key-short f k o short all j = pick (bytes_eq k j)
  where
    pick : (b : Bool) → IsShortValue (if b then o else f j)
    pick true = short
    pick false = all j

pub apply-short :
    (input : Bytes) (x : StorageOp) (f : Bytes → Option Bytes)
    → length input ≤ 256
    → IsShortOp x
    → ((j : Bytes) → IsShortValue (f j))
    → (j : Bytes) → IsShortValue ((apply input x f).1 j)
apply-short input (read k) f i s all = all
apply-short input (has_key k) f i s all = all
apply-short input (size k) f i s all = all
apply-short input (write k v) f i s all = update_key-short f k (some v) s all
apply-short input (write_input k) f i s all = update_key-short f k (some input) i all
apply-short input (remove k) f i s all = update_key-short f k none tt all

-- The operation replies as on the map that storage is, and changes storage as the map.
abbrev pub OpEnds : StorageOp → Machine → Type 0
OpEnds x m =
    (m' : Machine) × (do_op machine x m ≡ (ok (apply m.input_bytes x m.storage).0, m'))
    × (m'.storage ≡ (apply m.input_bytes x m.storage).1)
    × (m'.input_bytes ≡ m.input_bytes)

pub do_op-machine :
    (x : StorageOp) (m : Machine) → ((j : Bytes) → IsShortValue (m.storage j)) → OpEnds x m
unfolding do_op ◌>>=◌ Io.read_storage Io.write_storage Io.remove_storage Io.storage_has_key
    Io.read_input_and_store Io.read_input Io.write_storage_direct Io.read_storage_len Exec.pure
    Exec.run
do_op-machine (read k) m short =
    let (storage, input) = found-kept (m.storage k) 0 m in
    ((found (m.storage k) 0 m).1, rw (fetch-found (m.storage k) 0 m (short k)) refl, storage, input)
do_op-machine (has_key k) m short =
    (m, (λ i. (ok (flag (has-is_some (m.storage k) i)), m)), refl, refl)
do_op-machine (size k) m short =
    let (storage, input) = found-kept (m.storage k) 0 m in
    (
      (found (m.storage k) 0 m).1,
      rw (size_of-found (m.storage k) 0 m (short k)) refl,
      storage,
      input,
    )
do_op-machine (write k v) m short =
    let n = set_key k (some v) m in
    let (storage, input) = found-kept (m.storage k) 2 n in
    ((found (m.storage k) 2 n).1, rw (fetch-found (m.storage k) 2 n (short k)) refl, storage, input)
do_op-machine (write_input k) m short =
    let n = set_key k (some m.input_bytes) (set_register 1 m.input_bytes m) in
    let (storage, input) = found-kept (m.storage k) 2 n in
    ((found (m.storage k) 2 n).1, refl, storage, input)
do_op-machine (remove k) m short =
    let n = set_key k none m in
    let (storage, input) = found-kept (m.storage k) 3 n in
    ((found (m.storage k) 3 n).1, rw (fetch-found (m.storage k) 3 n (short k)) refl, storage, input)
