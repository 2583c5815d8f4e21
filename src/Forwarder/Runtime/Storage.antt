-- ===== src/Forwarder/Runtime/Storage.antt =====
-- The storage operations of forwarder/src/runtime/io.rs as a map from keys to values: what a client
-- gets from any sequence of them.
pub mod Steps
pub mod Refines
pub mod Tests
use aurora_forwarder_contrac.Base.{
  ℕ, ◌≤◌, ◌≡◌, Bool, true, false, Option, none, some, List, [], ◌∷◌, Bytes, length, All,
}
use aurora_forwarder_contrac.Forwarder.Host.{Host}
use aurora_forwarder_contrac.Forwarder.Host.Machine.{update_key}
use aurora_forwarder_contrac.Forwarder.Runtime.Exec.{Exec, pure, ◌>>=◌, ◌>>◌}
use aurora_forwarder_contrac.Forwarder.Runtime.Io

-- An operation of a client, and what it gets back. An old value comes as a register, whose bytes
-- are taken at once.
pub data StorageOp : Type 0 where
  read : Bytes → StorageOp
  has_key : Bytes → StorageOp
  size : Bytes → StorageOp
  write : Bytes → Bytes → StorageOp
  write_input : Bytes → StorageOp
  remove : Bytes → StorageOp

pub data Reply : Type 0 where
  value : Option Bytes → Reply
  flag : Bool → Reply
  len : Option ℕ → Reply
  done : Reply

-- What the operations do on a map, where `input` is the call's input.
abbrev pub is_some : Option Bytes → Bool
is_some none = false
is_some (some v) = true

abbrev pub length_of : Option Bytes → Option ℕ
length_of none = none
length_of (some v) = some (length v)

abbrev pub apply : Bytes → StorageOp → (Bytes → Option Bytes) → Reply × (Bytes → Option Bytes)
apply input (read k) f = (value (f k), f)
apply input (has_key k) f = (flag (is_some (f k)), f)
apply input (size k) f = (len (length_of (f k)), f)
apply input (write k v) f = (value (f k), update_key f k (some v))
apply input (write_input k) f = (done, update_key f k (some input))
apply input (remove k) f = (value (f k), update_key f k none)

unfoldable pub replay :
    Bytes → List StorageOp → (Bytes → Option Bytes) → List Reply × (Bytes → Option Bytes)
replay input [] f = ([], f)
replay input (x ∷ xs) f =
    let (a, g) = apply input x f in let (as', g') = replay input xs g in (a ∷ as', g')

-- What a client does on the host.
module _ (h : Host) where
  open h use {World}

  unfoldable pub fetch : Option ℕ → Exec World (Option Bytes)
  fetch none = pure none
  fetch (some register) = do bytes ← Io.to_vec h register; pure (some bytes)

  unfoldable pub do_op : StorageOp → Exec World Reply
  do_op (read k) = do register ← Io.read_storage h k; old ← fetch register; pure (value old)
  do_op (has_key k) = do answer ← Io.storage_has_key h k; pure (flag answer)
  do_op (size k) = do n ← Io.read_storage_len h k; pure (len n)
  do_op (write k v) = do register ← Io.write_storage h k v; old ← fetch register; pure (value old)
  do_op (write_input k) = do Io.read_input_and_store h k; pure done
  do_op (remove k) = do register ← Io.remove_storage h k; old ← fetch register; pure (value old)

  unfoldable pub do_ops : List StorageOp → Exec World (List Reply)
  do_ops [] = pure []
  do_ops (x ∷ xs) = do a ← do_op x; as' ← do_ops xs; pure (a ∷ as')

-- Values that fit the buffer of `to_vec`.
abbrev pub IsShortValue : Option Bytes → Type 0
IsShortValue none = Unit
IsShortValue (some v) = length v ≤ 256

abbrev pub IsShortOp : StorageOp → Type 0
IsShortOp (write k v) = length v ≤ 256
IsShortOp (read k) = Unit
IsShortOp (has_key k) = Unit
IsShortOp (size k) = Unit
IsShortOp (write_input k) = Unit
IsShortOp (remove k) = Unit
