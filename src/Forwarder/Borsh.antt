-- ===== src/Forwarder/Borsh.antt =====
-- forwarder/src/types/mod.rs: `to_borsh` into a buffer of 256 bytes.
use aurora_forwarder_contrac.Base.{
  ℕ, ◌≤◌, ◌<◌, ◌≡◌, Bytes, length, leb, if◌then◌else◌, le→leb, lt→not_leb, Result, ok, err, trap,
}
use aurora_forwarder_contrac.Base.Results.{Outcome}
use aurora_forwarder_contrac.Crates.{IoError}
use aurora_forwarder_contrac.Forwarder.Error.{ContractError, borsh_serialize_error}

-- The capacity of `types::Vec`, an `ArrayVec` of 256 elements.
abbrev pub vec_capacity : ℕ
vec_capacity = 256

-- The argument is what serializing the value gives: its length is what `object_length` returns,
-- and a buffer of that length holds all of it.
unfoldable pub to_borsh : Result IoError Bytes → Outcome (Result ContractError Bytes)
to_borsh (err _) = ok (err borsh_serialize_error)
to_borsh (ok bytes) = if leb (length bytes) vec_capacity then ok (ok bytes) else err trap

pub to_borsh_fits : (s : Bytes) → length s ≤ vec_capacity → to_borsh (ok s) ≡ ok (ok s)
unfolding to_borsh
to_borsh_fits s h = rw (le→leb _ _ h)

pub to_borsh_full : (s : Bytes) → vec_capacity < length s → to_borsh (ok s) ≡ err trap
unfolding to_borsh
to_borsh_full s h = rw (lt→not_leb _ _ h)
