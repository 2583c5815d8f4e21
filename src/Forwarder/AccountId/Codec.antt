-- ===== src/Forwarder/AccountId/Codec.antt =====
-- The borsh form of an account name: reading, writing and both in turn.
use aurora_forwarder_contrac.Base.{
  ◌≤◌, ◌<◌, ◌≡◌, inl, inr, true, [], ◌++◌, ◌+◌, length-append, append_assoc, append-nil, Bytes, All,
  length, ok, err, arith, is_utf8, is_utf8-ascii,
}
use aurora_forwarder_contrac.Crates.{Crates, IsDocumented}
use aurora_forwarder_contrac.Forwarder.Error.{ContractError, parse_account_error}
use aurora_forwarder_contrac.Forwarder.Reader.{read_exact-append}
use aurora_forwarder_contrac.Forwarder.AccountId.{
  AccountId, validate, new, deserialize_reader, serialize,
}
use aurora_forwarder_contrac.Forwarder.AccountId.Grammar.{IsName, last, more, join, validate_iff}

-- A name that `validate` accepts.
abbrev pub IsAccount : AccountId → Type 0
IsAccount id = validate id.as_bytes ≡ ok tt

IsName-ascii : {s : Bytes} → IsName s → All (λ c. c < 128) s
IsName-ascii (last h) = omega arith
IsName-ascii (more h n) = (omega arith, IsName-ascii n)
IsName-ascii (join h d n) = (omega arith, (omega arith, IsName-ascii n))

pub IsAccount-bounds :
    (id : AccountId) → IsAccount id → (2 ≤ length id.as_bytes) × (length id.as_bytes ≤ 64)
IsAccount-bounds id h = let (lo, hi, _) = (validate_iff id.as_bytes).0.0 h in (lo, hi)

pub IsAccount-utf8 : (id : AccountId) → IsAccount id → is_utf8 id.as_bytes ≡ true
IsAccount-utf8 id h =
    let (_, _, n) = (validate_iff id.as_bytes).0.0 h in is_utf8-ascii id.as_bytes (IsName-ascii n)

-- Four bytes of length before the name's own bytes.
abbrev pub encoding : Crates → AccountId → Bytes
encoding lib id = lib.write_u32 (length id.as_bytes) ++ id.as_bytes

module _ {lib : Crates} (doc : IsDocumented lib) where
  -- `new` wraps an accepted text, unchanged.
  pub new-validate : (s : Bytes) → validate s ≡ ok tt → new lib s ≡ ok (record { as_bytes = s })
  unfolding new
  new-validate s h =
      rw (h, doc.push_fits 64 [] s (omega (arith, IsAccount-bounds (record { as_bytes = s }) h)))

  new-err : (s : Bytes) (e : ContractError) → validate s ≡ err e → new lib s ≡ err e
  unfolding new
  new-err s e h = rw h

  new-IsAccount : (s : Bytes) {id : AccountId} → new lib s ≡ ok id → IsAccount id
  new-IsAccount s {id} h = elim (validate_iff s).1 [
    | inl v ↦ let same : record { as_bytes = s } ≡ id = cc (new-validate s v) in rw (← same) v
    | inr e ↦ cc (new-err s parse_account_error e)
  ]

  -- Whatever bytes are read, a name that comes out is valid.
  pub deserialize_reader-IsAccount :
      (s rest : Bytes) {id : AccountId} → deserialize_reader lib s ≡ ok (id, rest) → IsAccount id
  unfolding deserialize_reader
  deserialize_reader-IsAccount s rest {id} h = grind (arith, new-IsAccount)

  pub serialize-encoding : (id : AccountId) → IsAccount id → serialize lib id ≡ ok (encoding lib id)
  unfolding serialize
  serialize-encoding id h = doc.str_layout id.as_bytes (omega (arith, IsAccount-bounds id h))

  pub deserialize_reader-encoding :
      (id : AccountId) (rest : Bytes)
      → IsAccount id
      → deserialize_reader lib (encoding lib id ++ rest) ≡ ok (id, rest)
  unfolding deserialize_reader
  deserialize_reader-encoding id rest h =
      let s = id.as_bytes in
      let bounds = IsAccount-bounds id h in
      rw (append_assoc, doc.u32_back (length s) (s ++ rest) (omega arith))
        (ground (arith, read_exact-append s rest, new-validate s h, IsAccount-utf8 id h))

  -- The same at the end of the input.
  pub deserialize_reader-encoding_last :
      (id : AccountId) → IsAccount id → deserialize_reader lib (encoding lib id) ≡ ok (id, [])
  deserialize_reader-encoding_last id h = rw append-nil at (deserialize_reader-encoding id [] h)

  pub length-encoding : (id : AccountId) → length (encoding lib id) ≡ 4 + length id.as_bytes
  length-encoding id = omega (
    arith,
    length-append (lib.write_u32 (length id.as_bytes)) id.as_bytes,
    doc.u32_length (length id.as_bytes),
  )

  -- A valid name is written without an error, and read back in front of any other bytes, which
  -- stay unread.
  pub deserialize_reader-serialize :
      (id : AccountId) (rest : Bytes)
      → IsAccount id
      → (s : Bytes) × (serialize lib id ≡ ok s)
        × (deserialize_reader lib (s ++ rest) ≡ ok (id, rest))
  deserialize_reader-serialize id rest h =
      (encoding lib id, serialize-encoding id h, deserialize_reader-encoding id rest h)
