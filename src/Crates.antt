-- ===== src/Crates.antt =====
-- The third-party crates that the forwarder calls: arrayvec, borsh and hex-conservative. Their
-- code is not in the repository, so they are a parameter, and what the forwarder relies on is
-- `IsDocumented`.
pub mod Reference
use aurora_forwarder_contrac.Base.{
  ℕ, ◌+◌, ◌*◌, ◌^◌, ◌≤◌, ◌<◌, ◌≡◌, Option, none, some, List, ◌++◌, Bytes, length, Result, ok, err,
  All,
}

-- What a read or a write of `borsh::io` reports.
pub data IoError : Type 0 where
  invalid_data unexpected_eof other : IoError

pub record Crates : Type 0 where
  -- `ArrayString::<CAP>::try_push_str`; `push_str` is the same and panics on `none`
  pub try_push_str : ℕ → Bytes → Bytes → Option Bytes
  -- `ArrayVec::<u8, CAP>::try_from(slice)`
  pub try_from_slice : ℕ → Bytes → Option Bytes
  -- the characters that `hex::BytesToHexIter` yields
  pub bytes_to_hex : Bytes → Bytes
  -- borsh's integers and `str`
  pub write_u32 : ℕ → Bytes
  pub write_u64 : ℕ → Bytes
  pub write_u128 : ℕ → Bytes
  pub write_str : Bytes → Result IoError Bytes
  pub read_u32 : Bytes → Result IoError (ℕ × Bytes)
  pub read_u64 : Bytes → Result IoError (ℕ × Bytes)
  pub read_u128 : Bytes → Result IoError (ℕ × Bytes)

abbrev pub IsByte : ℕ → Type 0
IsByte b = b < 256

-- The documented behaviour: a push or a copy succeeds as long as it fits, hexadecimal takes two
-- characters a byte, borsh's integers have a fixed width and are read back, what is read from
-- bytes fits its width, and a string is its length as a u32 before its bytes.
pub record IsDocumented (lib : Crates) : Type 0 where
  pub push_fits :
      (cap : ℕ) (s t : Bytes) → length s + length t ≤ cap → lib.try_push_str cap s t ≡ some (s ++ t)
  pub push_full :
      (cap : ℕ) (s t : Bytes) → cap < length s + length t → lib.try_push_str cap s t ≡ none
  pub slice_fits : (cap : ℕ) (s : Bytes) → length s ≤ cap → lib.try_from_slice cap s ≡ some s
  pub hex_length : (s : Bytes) → length (lib.bytes_to_hex s) ≡ 2 * length s
  pub u32_length : (n : ℕ) → length (lib.write_u32 n) ≡ 4
  pub u64_length : (n : ℕ) → length (lib.write_u64 n) ≡ 8
  pub u128_length : (n : ℕ) → length (lib.write_u128 n) ≡ 16
  pub u32_back : (n : ℕ) (r : Bytes) → n < 2 ^ 32 → lib.read_u32 (lib.write_u32 n ++ r) ≡ ok (n, r)
  pub u64_back : (n : ℕ) (r : Bytes) → n < 2 ^ 64 → lib.read_u64 (lib.write_u64 n ++ r) ≡ ok (n, r)
  pub u128_back :
      (n : ℕ) (r : Bytes) → n < 2 ^ 128 → lib.read_u128 (lib.write_u128 n ++ r) ≡ ok (n, r)
  pub u128_fits : (s r : Bytes) (n : ℕ) → All IsByte s → lib.read_u128 s ≡ ok (n, r) → n < 2 ^ 128
  pub str_layout :
      (s : Bytes) → length s < 2 ^ 32 → lib.write_str s ≡ ok (lib.write_u32 (length s) ++ s)
