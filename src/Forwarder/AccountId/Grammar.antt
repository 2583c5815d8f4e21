-- ===== src/Forwarder/AccountId/Grammar.antt =====
-- What `validate` accepts, against the grammar of account names.
use aurora_forwarder_contrac.Base.{
  ℕ, ◌≤◌, ◌≡◌, refl, ◌↔◌, ◌≢◌, Option, none, some, ◌⊎◌, inl, inr, Bool, true, false, [], ◌∷◌, Bytes,
  length, ok, err, arith,
}
use aurora_forwarder_contrac.Forwarder.Error.{parse_account_error}
use aurora_forwarder_contrac.Forwarder.AccountId.{is_separator, scan, validate}

abbrev pub IsAlnum : ℕ → Type 0
IsAlnum c = (b'a' ≤ c) × (c ≤ b'z') ⊎ (b'0' ≤ c) × (c ≤ b'9')

abbrev pub IsSeparator : ℕ → Type 0
IsSeparator c = (c ≡ b'-') ⊎ (c ≡ b'_') ⊎ (c ≡ b'.')

-- Runs of letters and digits with one separator between two runs: the language of
-- /^(([a-z\d]+[-_])*[a-z\d]+\.)*([a-z\d]+[-_])*[a-z\d]+$/.
pub data IsName : Bytes → Type 0 where
  last : {c : ℕ} → IsAlnum c → IsName (c ∷ [])
  more : {c : ℕ} {s : Bytes} → IsAlnum c → IsName s → IsName (c ∷ s)
  join : {c d : ℕ} {s : Bytes} → IsAlnum c → IsSeparator d → IsName s → IsName (c ∷ d ∷ s)

scan_name : {s : Bytes} (b : Bool) → IsName s → scan s b ≡ ok false
unfolding scan is_separator
scan_name b (last h) = ground arith
scan_name b (more {s = s} h n) = ground (arith, scan_name false n)
scan_name b (join h d n) = ground (arith, scan_name true n)

IsAlnum-of_class : (c : ℕ) → is_separator c ≡ some false → IsAlnum c
unfolding is_separator
IsAlnum-of_class c h = ground arith

IsSeparator-of_class : (c : ℕ) → is_separator c ≡ some true → IsSeparator c
unfolding is_separator
IsSeparator-of_class c h = ground arith

class-cases : (o : Option Bool) → (o ≡ none) ⊎ ((o ≡ some false) ⊎ (o ≡ some true))
class-cases none = inl refl
class-cases (some false) = inr (inl refl)
class-cases (some true) = inr (inr refl)

-- One round of the loop that ends well: what the byte was, and that the rest ends well.
scan_step :
    (c : ℕ) (s : Bytes) (b : Bool)
    → scan (c ∷ s) b ≡ ok false
    → (IsAlnum c × (scan s false ≡ ok false))
      ⊎ ((b ≡ false) × IsSeparator c × (scan s true ≡ ok false))
unfolding scan
scan_step c s b h = elim (class-cases (is_separator c)) [
  | inl e ↦ ground (arith, e)
  | inr (inl e) ↦ inl (IsAlnum-of_class c e, ground (arith, e))
  | inr (inr e) ↦ inr (ground (arith, e), IsSeparator-of_class c e, ground (arith, e))
]

scan-nil : scan [] true ≢ ok false
unfolding scan
scan-nil h = cc

mutual
  scan_sound : (s : Bytes) → scan s true ≡ ok false → IsName s
  scan_sound [] h = absurd (scan-nil h)
  scan_sound (c ∷ s) h = elim (scan_step c s true h) [
    | inl (a, e) ↦ IsName-after c s a e
    | inr (e, _, _) ↦ cc
  ]

  IsName-after : (c : ℕ) (s : Bytes) → IsAlnum c → scan s false ≡ ok false → IsName (c ∷ s)
  IsName-after c [] a h = last a
  IsName-after c (d ∷ s) a h = elim (scan_step d s false h) [
    | inl (b, e) ↦ more a (IsName-after d s b e)
    | inr (_, b, e) ↦ join a b (scan_sound s e)
  ]

scan-cases :
    (s : Bytes) (b : Bool)
    → (scan s b ≡ ok false) ⊎ ((scan s b ≡ ok true) ⊎ (scan s b ≡ err parse_account_error))
unfolding scan
scan-cases [] true = inr (inl refl)
scan-cases [] false = inl refl
scan-cases (c ∷ s) b = ground (arith, scan-cases s true, scan-cases s false)

-- `validate` accepts exactly the names of 2 to 64 bytes in the grammar, and what it refuses it
-- refuses with `ParseAccountError`.
pub validate_iff :
    (s : Bytes)
    → ((validate s ≡ ok tt) ↔ ((2 ≤ length s) × (length s ≤ 64) × IsName s))
      × ((validate s ≡ ok tt) ⊎ (validate s ≡ err parse_account_error))
unfolding validate
validate_iff s = elim (scan-cases s true) [
  | inl e ↦ ground (arith, scan_sound s e)
  | inr (inl e) ↦ ((λ h. ground arith, λ (_, _, n). ground (arith, scan_name true n)), ground arith)
  | inr (inr e) ↦ ((λ h. ground arith, λ (_, _, n). ground (arith, scan_name true n)), ground arith)
]
