-- ===== src/Utils.antt =====
-- utils/src/lib.rs: the prefix of a forwarder's account.
pub mod Prefix
use aurora_forwarder_contrac.Base.{
  ℕ, ◌+◌, [], ◌∷◌, ◌++◌, Bytes, leb, ◌==◌, ◌&&◌, if◌then◌else◌, map,
}

-- The host's Keccak-256 and the base 58 of the crate bs58. Their code is not in the repository.
pub record Hashing : Type 0 where
  pub keccak256 : Bytes → Bytes
  pub bs58_encode : Bytes → Bytes

-- `trim_start_matches("0x")`: every such prefix is taken off.
unfoldable pub trim_start_0x : Bytes → Bytes
trim_start_0x [] = []
trim_start_0x (c ∷ []) = c ∷ []
trim_start_0x (c ∷ d ∷ s) =
    let rest = trim_start_0x s in if (c == b'0') && (d == b'x') then rest else c ∷ d ∷ s

-- `to_lowercase` on ASCII, which base 58 is.
abbrev pub lower : ℕ → ℕ
lower c = if leb b'A' c && leb c b'Z' then c + 32 else c

-- The bytes that are hashed.
unfoldable pub hashed : Bytes → Bytes → Bytes → Bytes
hashed address target_network fees_contract_id =
    trim_start_0x address ++ (target_network ++ fees_contract_id)

unfoldable pub forwarder_prefix : Hashing → Bytes → Bytes → Bytes → Bytes
forwarder_prefix hashing address target_network fees_contract_id =
    map lower
      (hashing.bs58_encode (hashing.keccak256 (hashed address target_network fees_contract_id)))
