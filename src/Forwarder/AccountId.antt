-- ===== src/Forwarder/AccountId.antt =====
-- forwarder/src/types/account_id.rs: account names, their validation and their borsh form.
pub mod Grammar
pub mod Codec
use aurora_forwarder_contrac.Base.{
  ℕ, Bool, true, false, not, ◌&&◌, ◌||◌, Option, none, some, [], ◌∷◌, Bytes, bytes_eq, length, ltb,
  leb, ◌==◌, if◌then◌else◌, Result, ok, err, map_err, ok_or, is_utf8,
}
use aurora_forwarder_contrac.Base.Results.{◌>>=◌}
use aurora_forwarder_contrac.Crates.{Crates, IoError, invalid_data}
use aurora_forwarder_contrac.Forwarder.Error.{ContractError, parse_account_error}
use aurora_forwarder_contrac.Forwarder.Reader.{read_exact}

abbrev pub min_account_id_len : ℕ
min_account_id_len = 2

abbrev pub max_account_id_len : ℕ
max_account_id_len = 64

-- The name is held in an `ArrayString<MAX_ACCOUNT_ID_LEN>`.
pub record AccountId : Type 0 where
  pub as_bytes : Bytes

-- `Default`: the empty name, which `new` refuses.
abbrev pub default : AccountId
default = record { as_bytes = [] }

-- The match on one byte: is it a separator? `none` is the arm that returns the error.
is_separator : ℕ → Option Bool
is_separator c =
    if leb b'a' c && leb c b'z' || leb b'0' c && leb c b'9'
    then some false
    else if c == b'-' || c == b'_' || c == b'.'
    then some true
    else none

-- The loop over the bytes; the result is `last_char_is_separator` after the last one.
scan : Bytes → Bool → Result ContractError Bool
scan [] last_char_is_separator = ok last_char_is_separator
scan (c ∷ s) last_char_is_separator = elim (is_separator c) [
  | none ↦ err parse_account_error
  | some current ↦
      if current && last_char_is_separator then err parse_account_error else scan s current
]

unfoldable pub validate : Bytes → Result ContractError (Unit {0})
unfolding scan is_separator
validate account_id =
    if ltb (length account_id) min_account_id_len || ltb max_account_id_len (length account_id)
    then err parse_account_error
    else do
      last_char_is_separator ← scan account_id true
      if not last_char_is_separator then ok tt else err parse_account_error

-- `PartialEq`
abbrev pub account_eq : AccountId → AccountId → Bool
account_eq a b = bytes_eq a.as_bytes b.as_bytes

module _ (lib : Crates) where
  unfoldable pub new : Bytes → Result ContractError AccountId
  new account_id = do
    _ ← validate account_id
    name ← ok_or (lib.try_push_str max_account_id_len [] account_id) parse_account_error
    ok (record { as_bytes = name })

  unfoldable pub deserialize_reader : Bytes → Result IoError (AccountId × Bytes)
  deserialize_reader reader = do
    (len, reader') ← lib.read_u32 reader
    if ltb len min_account_id_len
        then err invalid_data
        else if ltb max_account_id_len len
        then err invalid_data
        else do
          (buf, reader'') ← read_exact len reader'
          id ← if is_utf8 buf then map_err (λ _. invalid_data) (new buf) else err invalid_data
          ok (id, reader'')

  unfoldable pub serialize : AccountId → Result IoError Bytes
  serialize id = lib.write_str id.as_bytes
