-- ===== src/Utils/Prefix.antt =====
-- What the prefix of a forwarder's account depends on (utils/src/lib.rs).
use aurora_forwarder_contrac.Base.{◌≡◌, refl, ◌∷◌, ◌++◌, append_assoc, Bytes}
use aurora_forwarder_contrac.Utils.{Hashing, trim_start_0x, hashed, forwarder_prefix}

-- An address has the same prefix with `0x` in front of it and without.
pub forwarder_prefix-0x :
    (hashing : Hashing) (address target_network fees_contract_id : Bytes)
    → forwarder_prefix hashing (b'0' ∷ b'x' ∷ address) target_network fees_contract_id
      ≡ forwarder_prefix hashing address target_network fees_contract_id
unfolding forwarder_prefix hashed trim_start_0x
forwarder_prefix-0x hashing address target_network fees_contract_id = refl

-- Nothing separates the two names: a part moved from the end of the network's name to the start of
-- the fees contract's name leaves the prefix as it is.
pub forwarder_prefix-moved :
    (hashing : Hashing) (address network part fees_contract_id : Bytes)
    → forwarder_prefix hashing address (network ++ part) fees_contract_id
      ≡ forwarder_prefix hashing address network (part ++ fees_contract_id)
unfolding forwarder_prefix hashed
forwarder_prefix-moved hashing address network part fees_contract_id =
    rw (append_assoc network part fees_contract_id) refl
