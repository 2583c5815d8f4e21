-- ===== src/Forwarder/Json/Fits.antt =====
-- The texts of the arguments of the token calls, and whether they fit their buffer.

use aurora_forwarder_contrac.Base.{
  ℕ, ◌+◌, ◌^◌, ◌≤◌, ◌<◌, ◌≡◌, List, [], ◌∷◌, ◌++◌, Bytes, codes, length, length-append, leb,
  if◌then◌else◌, true, le→leb, ok, err, trap, arith,
}
use aurora_forwarder_contrac.Base.Results.{◌>>=◌, Outcome, bind_assoc}
use aurora_forwarder_contrac.Crates.{Crates, IsDocumented}
use aurora_forwarder_contrac.Forwarder.AccountId.{AccountId}
use aurora_forwarder_contrac.Forwarder.AccountId.Codec.{IsAccount, IsAccount-bounds}
use aurora_forwarder_contrac.Forwarder.Address.{Address, IsAddress}
use aurora_forwarder_contrac.Forwarder.Decimal.Print.{decimal, amount_to_str-decimal}
use aurora_forwarder_contrac.Forwarder.Json.{
  json_capacity, push_chars, to_vec, ft_transfer_call_args, ft_transfer_args, ft_balance_args,
}
use aurora_forwarder_contrac.Forwarder.Json.Push.{
  fit, concat, fit_all, fit_all-concat, push_str-fit, push_chars-fit_pos,
}

-- The text of a `ft_transfer_call`'s arguments.
abbrev pub transfer_call_json : Crates → AccountId → ℕ → Address → Bytes
transfer_call_json lib receiver_id amount address =
    codes "{\"receiver_id\":\""
    ++ (receiver_id.as_bytes
        ++ (codes "\",\"amount\":\""
            ++ (decimal amount
                ++ (codes "\",\"msg\":\"" ++ (lib.bytes_to_hex address.raw ++ codes "\"}")))))

abbrev pub transfer_json : AccountId → ℕ → Bytes
transfer_json receiver_id amount =
    codes "{\"receiver_id\":\""
    ++ (receiver_id.as_bytes ++ (codes "\",\"amount\":\"" ++ (decimal amount ++ codes "\"}")))

abbrev pub balance_json : AccountId → Bytes
balance_json account_id = codes "{\"account_id\":\"" ++ (account_id.as_bytes ++ codes "\"}")

-- A text that fits is returned whole, and one that does not ends in a trap.
abbrev pub checked : Bytes → Outcome Bytes
checked s = if leb (length s) json_capacity then ok s else err trap

module _ {lib : Crates} (doc : IsDocumented lib) where
  to_vec-short : (s : Bytes) → length s ≤ json_capacity → to_vec lib s ≡ s
  unfolding to_vec
  to_vec-short s h = rw (doc.slice_fits 256 s (omega arith))

  -- A run of pushes from the empty buffer, and the copy out of it.
  fit_all-checked :
      (ss : List Bytes) → (fit_all [] ss >>= λ r. ok (to_vec lib r)) ≡ checked (concat ss)
  fit_all-checked ss = ground (arith, fit_all-concat [] ss, to_vec-short (concat ss))

  -- The arguments of `ft_balance_of` are the whole JSON text for every valid account name.
  pub ft_balance_args-json :
      (id : AccountId) → IsAccount id → ft_balance_args lib id ≡ ok (balance_json id)
  unfolding ft_balance_args
  ft_balance_args-json id h =
      let ss = codes "{\"account_id\":\"" ∷ id.as_bytes ∷ codes "\"}" ∷ [] in
      let chain : ft_balance_args lib id ≡ checked (concat ss) =
        rw (← fit_all-checked ss) (simp (push_str-fit doc, bind_assoc)) in
      let bounds = IsAccount-bounds id h in
      let short : leb (length (balance_json id)) json_capacity ≡ true =
        le→leb _ _ (omega (arith, length-append id.as_bytes (codes "\"}"))) in
      rw short at chain

  -- For a u128, the arguments of `ft_transfer` are returned whole if the receiver's name and the
  -- digits of the amount have at most 98 bytes together; otherwise the call traps.
  pub ft_transfer_args-json :
      (id : AccountId) (amount : ℕ)
      → amount < 2 ^ 128
      → ft_transfer_args lib id amount ≡ (
          if leb (length id.as_bytes + length (decimal amount)) 98
          then ok (transfer_json id amount)
          else err trap)
  unfolding ft_transfer_args
  ft_transfer_args-json id amount h =
      let ss =
        codes "{\"receiver_id\":\""
        ∷ id.as_bytes
        ∷ codes "\",\"amount\":\""
        ∷ decimal amount
        ∷ codes "\"}"
        ∷ [] in
      let chain : ft_transfer_args lib id amount ≡ checked (concat ss) =
        rw (← fit_all-checked ss)
          (simp (push_str-fit doc, amount_to_str-decimal amount h, bind_assoc)) in
      ground (
        arith,
        chain,
        length-append id.as_bytes (codes "\",\"amount\":\"" ++ (decimal amount ++ codes "\"}")),
        length-append (decimal amount) (codes "\"}"),
      )

  push_chars-hex :
      (r : Bytes) (address : Address)
      → IsAddress address
      → push_chars lib r (lib.bytes_to_hex address.raw) ≡ fit r (lib.bytes_to_hex address.raw)
  push_chars-hex r address h =
      push_chars-fit_pos doc r (lib.bytes_to_hex address.raw)
        (omega (arith, doc.hex_length address.raw))

  -- For a u128 and an address of twenty bytes, the arguments of `ft_transfer_call` are returned
  -- whole if the receiver's name and the digits of the amount have at most 49 bytes together;
  -- otherwise the call traps.
  pub ft_transfer_call_args-json :
      (id : AccountId) (amount : ℕ) (address : Address)
      → amount < 2 ^ 128
      → IsAddress address
      → ft_transfer_call_args lib id amount address ≡ (
          if leb (length id.as_bytes + length (decimal amount)) 49
          then ok (transfer_call_json lib id amount address)
          else err trap)
  unfolding ft_transfer_call_args
  ft_transfer_call_args-json id amount address h ha =
      let hex = lib.bytes_to_hex address.raw in
      let ss =
        codes "{\"receiver_id\":\""
        ∷ id.as_bytes
        ∷ codes "\",\"amount\":\""
        ∷ decimal amount
        ∷ codes "\",\"msg\":\""
        ∷ hex
        ∷ codes "\"}"
        ∷ [] in
      let chain : ft_transfer_call_args lib id amount address ≡ checked (concat ss) =
        rw (← fit_all-checked ss) (
          simp (
            push_str-fit doc,
            amount_to_str-decimal amount h,
            λ (r : Bytes). push_chars-hex r address ha,
            bind_assoc,
          )) in
      ground (
        arith,
        chain,
        length-append id.as_bytes (
            codes "\",\"amount\":\""
            ++ (decimal amount ++ (codes "\",\"msg\":\"" ++ (hex ++ codes "\"}")))),
        length-append (decimal amount) (codes "\",\"msg\":\"" ++ (hex ++ codes "\"}")),
        length-append hex (codes "\"}"),
        doc.hex_length address.raw,
      )
