-- ===== src/Factory/Fixtures.antt =====
-- What the factory calls of near-sdk, for the tests.
use aurora_forwarder_contrac.Base.{
  ◌≡◌, refl, Option, none, some, [], ◌∷◌, Bytes, codes, All, ok, err, inl, inr, arith,
}
use aurora_forwarder_contrac.Factory.{Sdk}
use aurora_forwarder_contrac.Factory.Names.{IsAscii58, IsAccountName, IsDocumentedSdk}
use aurora_forwarder_contrac.Forwarder.AccountId.{validate}
use aurora_forwarder_contrac.Forwarder.AccountId.Grammar.{validate_iff}

-- A parser that accepts the valid names, a hash of zeros, and their base 58.
abbrev pub parse_name : Bytes → Option Bytes
parse_name s = elim (validate s) [ ok _ ↦ some s | err _ ↦ none ]

abbrev pub zeros : Bytes
zeros =
    0 ∷ 0 ∷ 0 ∷ 0 ∷ 0 ∷ 0 ∷ 0 ∷ 0 ∷ 0 ∷ 0 ∷ 0 ∷ 0 ∷ 0 ∷ 0 ∷ 0 ∷ 0 ∷ 0 ∷ 0 ∷ 0 ∷ 0 ∷ 0 ∷ 0 ∷ 0 ∷ 0
    ∷ 0 ∷ 0 ∷ 0 ∷ 0 ∷ 0 ∷ 0 ∷ 0 ∷ 0 ∷ []

abbrev pub ones : Bytes
ones = codes "11111111111111111111111111111111"

abbrev pub strict : Sdk
strict = record {
  hashing = record { keccak256 = λ s. zeros; bs58_encode = λ s. ones };
  parse_account = parse_name;
  decode_address = some;
}

ones-letters : All IsAscii58 ones
ones-letters = search (arith)

parse_name-accepts : (s : Bytes) → IsAccountName s → parse_name s ≡ some s
parse_name-accepts s valid = rw ((validate_iff s).0.1 valid, parse_name) refl

parse_name-refuses : (s : Bytes) → (IsAccountName s → ⊥) → parse_name s ≡ none
parse_name-refuses s invalid = elim (validate_iff s).1 [
  | inl v ↦ absurd (invalid ((validate_iff s).0.0 v))
  | inr e ↦ rw (e, parse_name) refl
]

pub strict-IsDocumentedSdk : IsDocumentedSdk strict
strict-IsDocumentedSdk = record {
  keccak_length = λ s. refl;
  bs58_length = λ s h. (omega arith, omega arith);
  bs58_letters = λ s. ones-letters;
  parses = parse_name-accepts;
  refuses = parse_name-refuses;
}
