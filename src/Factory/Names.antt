-- ===== src/Factory/Names.antt =====
-- The accounts of the forwarders: `create_forwarder_id` of factory/src/lib.rs over the prefix of
-- utils/src/lib.rs.
use aurora_forwarder_contrac.Base.{
  ℕ, ◌+◌, ◌≤◌, ◌<◌, ◌≡◌, ◌⊎◌, inl, inr, refl, none, some, [], ◌∷◌, ◌++◌, map, Bytes, codes, length,
  length-append, length-map, ok, err, All, arith, le_or_gt,
}
use aurora_forwarder_contrac.Factory.{Sdk, bad_account, create_forwarder_id}
use aurora_forwarder_contrac.Forwarder.AccountId.Grammar.{IsAlnum, IsName, join, more}
use aurora_forwarder_contrac.Utils.{hashed, lower, forwarder_prefix}

-- A letter or a digit, which every character of base 58 is.
abbrev pub IsAscii58 : ℕ → Type 0
IsAscii58 c = IsAlnum c ⊎ (b'A' ≤ c) × (c ≤ b'Z')

-- A valid account name.
abbrev pub IsAccountName : Bytes → Type 0
IsAccountName s = (2 ≤ length s) × (length s ≤ 64) × IsName s

-- The documented behaviour of what the factory calls: Keccak-256 gives 32 bytes, base 58 writes
-- these as 32 to 44 letters and digits, and near-sdk accepts the valid account names and no others.
pub record IsDocumentedSdk (sdk : Sdk) : Type 0 where
  pub keccak_length : (s : Bytes) → length (sdk.hashing.keccak256 s) ≡ 32
  pub bs58_length :
      (s : Bytes)
      → length s ≡ 32
      → (32 ≤ length (sdk.hashing.bs58_encode s)) × (length (sdk.hashing.bs58_encode s) ≤ 44)
  pub bs58_letters : (s : Bytes) → All IsAscii58 (sdk.hashing.bs58_encode s)
  pub parses : (s : Bytes) → IsAccountName s → sdk.parse_account s ≡ some s
  pub refuses : (s : Bytes) → (IsAccountName s → ⊥) → sdk.parse_account s ≡ none

lower-IsAlnum : (c : ℕ) → IsAscii58 c → IsAlnum (lower c)
lower-IsAlnum c h = ground arith

map-lower-IsAlnum : (s : Bytes) → All IsAscii58 s → All IsAlnum (map lower s)
map-lower-IsAlnum [] h = tt
map-lower-IsAlnum (c ∷ s) (a, h) = (lower-IsAlnum c a, map-lower-IsAlnum s h)

-- A run of letters and digits, a dot and a name are a name.
sub_account-IsName :
    (s name : Bytes) → All IsAlnum s → 1 ≤ length s → IsName name → IsName (s ++ b'.' ∷ name)
sub_account-IsName [] name h some_left n = absurd (omega (arith, some_left))
sub_account-IsName (c ∷ []) name (a, h) some_left n = join a (inr (inr refl)) n
sub_account-IsName (c ∷ d ∷ s) name (a, h) some_left n =
    more a (sub_account-IsName (d ∷ s) name h (omega arith) n)

module _ {sdk : Sdk} (doc : IsDocumentedSdk sdk) (address network fees : Bytes) where
  -- The prefix has 32 to 44 letters and digits.
  pub forwarder_prefix-letters :
      let prefix = forwarder_prefix sdk.hashing address network fees in
      (32 ≤ length prefix) × (length prefix ≤ 44) × All IsAlnum prefix
  unfolding forwarder_prefix
  forwarder_prefix-letters =
      let text = sdk.hashing.bs58_encode (sdk.hashing.keccak256 (hashed address network fees)) in
      let (least, most) = doc.bs58_length _ (doc.keccak_length (hashed address network fees)) in
      let same = length-map lower text in
      (
        omega (arith, same, least),
        omega (arith, same, most),
        map-lower-IsAlnum text (doc.bs58_letters _),
      )

  -- The account of a forwarder. On a factory with a valid name, the account is the prefix of 32 to 44
  -- lowercase letters and digits, a dot and the factory's name, and it is a valid name, if it has at
  -- most 64 bytes; otherwise the factory panics. A name of at most 19 bytes always leaves room.
  pub create_forwarder_id-name :
      (current : Bytes)
      → IsName current
      → let prefix = forwarder_prefix sdk.hashing address network fees in
        let id = prefix ++ (codes "." ++ current) in
        ((length prefix + 1 + length current ≤ 64)
            × (create_forwarder_id sdk current address network fees ≡ ok id)
            × IsAccountName id
          ⊎ (64 < length prefix + 1 + length current)
            × (19 < length current)
            × (create_forwarder_id sdk current address network fees ≡ err bad_account))
  unfolding create_forwarder_id
  create_forwarder_id-name current valid =
      let (least, most, letters) = forwarder_prefix-letters in
      let prefix = forwarder_prefix sdk.hashing address network fees in
      let id = prefix ++ b'.' ∷ current in
      let size : length id ≡ length prefix + (1 + length current) =
        omega (arith, length-append prefix (b'.' ∷ current)) in
      elim (le_or_gt (length prefix + 1 + length current) 64) [
        | inl fits ↦
            let is_name : IsAccountName id = (
              omega (arith, size, least),
              omega (arith, size, fits),
              sub_account-IsName prefix current letters (omega (arith, least)) valid,
            ) in
            inl (fits, rw (doc.parses id is_name) refl, is_name)
        | inr long ↦ inr (
          long,
          omega (arith, long, most),
          rw (doc.refuses id (λ is_name. omega (arith, is_name, size, long))) refl,
        )
      ]
