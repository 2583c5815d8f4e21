-- ===== src/Forwarder/Json/Push.antt =====
-- Runs of pushes into the buffer against the text as a whole.
use aurora_forwarder_contrac.Base.{
  ℕ, ◌+◌, ◌≤◌, ◌≡◌, List, [], ◌∷◌, ◌++◌, append_assoc, append-nil, Bytes, length, length-append,
  leb, if◌then◌else◌, Bool-cases, leb→le, inl, inr, ok, err, trap, arith,
}
use aurora_forwarder_contrac.Base.Results.{◌>>=◌, Outcome}
use aurora_forwarder_contrac.Crates.{Crates, IsDocumented}
use aurora_forwarder_contrac.Forwarder.Json.{json_capacity, push_str, push_chars}

-- What a push does, with no crate in it.
abbrev pub fit : Bytes → Bytes → Outcome Bytes
fit r s = if leb (length r + length s) json_capacity then ok (r ++ s) else err trap

abbrev pub concat : List Bytes → Bytes
concat [] = []
concat (s ∷ ss) = s ++ concat ss

abbrev pub fit_all : Bytes → List Bytes → Outcome Bytes
fit_all r [] = ok r
fit_all r (s ∷ ss) = fit r s >>= λ r'. fit_all r' ss

pub fit_all-concat :
    (r : Bytes) (ss : List Bytes) → length r ≤ json_capacity → fit_all r ss ≡ fit r (concat ss)
fit_all-concat r [] h = ground (arith, append-nil r)
fit_all-concat r (s ∷ ss) h = ground (
  arith,
  fit_all-concat (r ++ s) ss,
  append_assoc r s (concat ss),
  length-append r s,
  length-append s (concat ss),
)

module _ {lib : Crates} (doc : IsDocumented lib) where
  pub push_str-fit : (r s : Bytes) → push_str lib r s ≡ fit r s
  unfolding push_str
  push_str-fit r s = elim (Bool-cases (leb (length r + length s) json_capacity)) [
    | inl yes_fits ↦ rw (yes_fits, doc.push_fits json_capacity r s (leb→le _ _ yes_fits))
    | inr full ↦ rw (full, doc.push_full json_capacity r s (ground (arith, full)))
  ]

  pub push_chars-fit : (r : Bytes) (c : ℕ) (s : Bytes) → push_chars lib r (c ∷ s) ≡ fit r (c ∷ s)
  unfolding push_chars
  push_chars-fit r c [] = ground (arith, push_str-fit r (c ∷ []))
  push_chars-fit r c (d ∷ s) = ground (
    arith,
    push_str-fit r (c ∷ []),
    push_chars-fit (r ++ c ∷ []) d s,
    append_assoc r (c ∷ []) (d ∷ s),
    length-append r (c ∷ []),
  )

  pub push_chars-fit_pos : (r s : Bytes) → 1 ≤ length s → push_chars lib r s ≡ fit r s
  push_chars-fit_pos r [] h = absurd (omega arith)
  push_chars-fit_pos r (c ∷ s) h = push_chars-fit r c s
