-- ===== src/Forwarder/Decimal/Print.antt =====
-- The digits that `amount_to_str` writes.
use mathlib.Core.List.{reverse, reverse-cons}
use native.Mathlib.Nat.{pow-suc}
use aurora_forwarder_contrac.Base.{
  ℕ, zero, suc, ◌+◌, ◌-◌, ◌*◌, ◌/◌, ◌%◌, ◌^◌, ◌≤◌, ◌<◌, ◌≡◌, ◌≢◌, refl, sym, [], ◌∷◌, ◌++◌,
  append_assoc, append-nil, Bytes, All, All-append, length, length-append, ◌==◌, if◌then◌else◌,
  Bool-cases, ==_iff, ◌⊎◌, inl, inr, ok, arith,
}
use aurora_forwarder_contrac.Forwarder.Decimal.{max_digits, emit, amount_to_str}

abbrev pub IsDigit : ℕ → Type 0
IsDigit c = (b'0' ≤ c) × (c ≤ b'9')

-- The number that digits spell behind `n`.
abbrev pub value_from : ℕ → Bytes → ℕ
value_from n [] = n
value_from n (c ∷ s) = value_from (n * 10 + (c - b'0')) s

-- The digits of `n`, the least significant first.
unfoldable pub digits : ℕ → ℕ → Bytes
digits zero n = []
digits (suc k) n = let rest = digits k (n / 10) in if n == 0 then [] else (b'0' + n % 10) ∷ rest

unfoldable pub decimal : ℕ → Bytes
decimal n = if n == 0 then b'0' ∷ [] else reverse (digits max_digits n)

emit-digits :
    (k n : ℕ) (written : Bytes) → n < 10 ^ k → emit k n written ≡ ok (written ++ digits k n)
unfolding emit digits
emit-digits zero n written h = ground (arith, append-nil written)
emit-digits (suc k) n written h = ground (
  arith,
  append-nil written,
  append_assoc written ((b'0' + n % 10) ∷ []) (digits k (n / 10)),
  pow-suc 10 k,
  emit-digits k (n / 10) (written ++ (b'0' + n % 10) ∷ []),
)

-- Every u128 is printed: the buffer never overflows.
pub amount_to_str-decimal : (n : ℕ) → n < 2 ^ 128 → amount_to_str n ≡ ok (decimal n)
unfolding amount_to_str decimal
amount_to_str-decimal n h = ground (arith, emit-digits max_digits n [])

value_from-append : (n : ℕ) (s t : Bytes) → value_from n (s ++ t) ≡ value_from (value_from n s) t
value_from-append n [] t = refl
value_from-append n (c ∷ s) t = value_from-append (n * 10 + (c - b'0')) s t

value-reverse-digits : (k n : ℕ) → n < 10 ^ k → value_from 0 (reverse (digits k n)) ≡ n
unfolding digits
value-reverse-digits zero n h = omega arith
value-reverse-digits (suc k) n h = elim (Bool-cases (n == 0)) [
  | inl done ↦ rw done (ground arith)
  | inr more ↦
      let ih : value_from 0 (reverse (digits k (n / 10))) ≡ n / 10 =
        value-reverse-digits k (n / 10) (omega (arith, pow-suc 10 k)) in
      rw (more, reverse-cons, value_from-append, ih) (omega arith)
]

digits-IsDigit : (k n : ℕ) → All IsDigit (reverse (digits k n))
unfolding digits
digits-IsDigit zero n = tt
digits-IsDigit (suc k) n = elim (Bool-cases (n == 0)) [
  | inl done ↦ rw done tt
  | inr more ↦
      rw (more, reverse-cons)
        (All-append IsDigit (reverse (digits k (n / 10))) ((b'0' + n % 10) ∷ [])
          (digits-IsDigit k (n / 10)) (omega arith))
]

length-digits : (k n : ℕ) → length (reverse (digits k n)) ≤ k
unfolding digits
length-digits zero n = omega arith
length-digits (suc k) n = elim (Bool-cases (n == 0)) [
  | inl done ↦ rw done (omega arith)
  | inr more ↦ rw (more, reverse-cons, length-append) (omega (arith, length-digits k (n / 10)))
]

-- A text that begins with a digit other than zero.
abbrev pub IsLeading : Bytes → Type 0
IsLeading [] = ⊥
IsLeading (c ∷ s) = c ≢ b'0'

IsLeading-append : (s t : Bytes) → IsLeading s → IsLeading (s ++ t)
IsLeading-append [] t h = absurd h
IsLeading-append (c ∷ s) t h = h

IsLeading-length : (s : Bytes) → IsLeading s → 1 ≤ length s
IsLeading-length [] h = absurd h
IsLeading-length (c ∷ s) h = omega arith

digits-zero : (k : ℕ) → digits k 0 ≡ []
unfolding digits
digits-zero zero = refl
digits-zero (suc k) = refl

digits-IsLeading : (k n : ℕ) → 0 < n → n < 10 ^ k → IsLeading (reverse (digits k n))
unfolding digits
digits-IsLeading zero n p h = absurd (omega arith)
digits-IsLeading (suc k) n p h = elim (Bool-cases (n == 0)) [
  | inl done ↦ absurd (ground arith)
  | inr more ↦
      rw (more, reverse-cons)
        (elim (Bool-cases (n / 10 == 0)) [
          | inl one ↦ rw ((==_iff _ _).0 one, digits-zero k) (omega (arith, (==_iff _ _).0 one))
          | inr tens ↦
              IsLeading-append _ _
                (digits-IsLeading k (n / 10) (ground (arith, tens)) (omega (arith, pow-suc 10 k)))
        ])
]

-- The print of a u128: what it spells, its digits, its length, and no zero in front.
pub decimal_sound :
    (n : ℕ)
    → n < 2 ^ 128
    → (value_from 0 (decimal n) ≡ n)
      × All IsDigit (decimal n)
      × (1 ≤ length (decimal n))
      × (length (decimal n) ≤ 39)
      × ((n ≡ 0) ⊎ IsLeading (decimal n))
unfolding decimal
decimal_sound n h = elim (Bool-cases (n == 0)) [
  | inl z ↦
      rw z (sym ((==_iff n 0).0 z), omega arith, omega arith, omega arith, inl ((==_iff n 0).0 z))
  | inr p ↦
      let lead : IsLeading (reverse (digits max_digits n)) =
        digits-IsLeading max_digits n (ground arith) (omega arith) in
      rw p (
        value-reverse-digits max_digits n (omega arith),
        digits-IsDigit max_digits n,
        IsLeading-length _ lead,
        length-digits max_digits n,
        inr lead,
      )
]

-- `amount_to_str` returns on every u128, and its text spells the amount in at most 39 digits, with
-- no zero in front of any but zero itself.
pub amount_to_str_total :
    (n : ℕ)
    → n < 2 ^ 128
    → (s : Bytes) × (amount_to_str n ≡ ok s)
      × (value_from 0 s ≡ n)
      × All IsDigit s
      × (1 ≤ length s)
      × (length s ≤ 39)
      × ((n ≡ 0) ⊎ IsLeading s)
amount_to_str_total n h =
    let (value, all_digits, some_digit, bounded, leading) = decimal_sound n h in
    (decimal n, amount_to_str-decimal n h, value, all_digits, some_digit, bounded, leading)
