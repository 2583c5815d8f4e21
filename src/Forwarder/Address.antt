-- ===== src/Forwarder/Address.antt =====
-- forwarder/src/types/address.rs: a twenty-byte address, written as it stands.
use aurora_forwarder_contrac.Base.{
  ℕ, ◌≡◌, ◌++◌, Bytes, length, Result, ok, err, length-take_le, arith,
}
use aurora_forwarder_contrac.Crates.{IoError, invalid_data, unexpected_eof, other}
use aurora_forwarder_contrac.Forwarder.Reader.{read_exact, read_exact-append}

abbrev pub address_bytes_len : ℕ
address_bytes_len = 20

pub record Address : Type 0 where
  pub raw : Bytes

-- The type's fixed length, `[u8; ADDRESS_BYTES_LEN]`.
abbrev pub IsAddress : Address → Type 0
IsAddress a = length a.raw ≡ address_bytes_len

unfoldable pub serialize : Address → Result IoError Bytes
serialize a = ok a.raw

-- Too few bytes are reported as `Other`; any other failure of the read as it is.
abbrev incorrect_length : IoError → IoError
incorrect_length unexpected_eof = other
incorrect_length invalid_data = invalid_data
incorrect_length other = other

finish : Result IoError (Bytes × Bytes) → Result IoError (Address × Bytes)
finish (ok (buf, reader)) = ok (record { raw = buf }, reader)
finish (err e) = err (incorrect_length e)

unfoldable pub deserialize_reader : Bytes → Result IoError (Address × Bytes)
unfolding finish
deserialize_reader reader = finish (read_exact address_bytes_len reader)

pub deserialize_reader-raw :
    (a : Address) (rest : Bytes) → IsAddress a → deserialize_reader (a.raw ++ rest) ≡ ok (a, rest)
unfolding deserialize_reader
deserialize_reader-raw a rest h = rw (← h, read_exact-append a.raw rest)

-- Whatever bytes are read as an address, the address has twenty bytes.
pub deserialize_reader-IsAddress :
    (reader : Bytes) {a : Address} {rest : Bytes}
    → deserialize_reader reader ≡ ok (a, rest)
    → IsAddress a
unfolding deserialize_reader finish read_exact
deserialize_reader-IsAddress reader h = ground (arith, length-take_le 20 reader)
