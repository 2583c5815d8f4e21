-- ===== src/Forwarder/Decimal/Parse.antt =====
-- `vec_to_number` on what `amount_to_str` prints, with or without quotes, and the bound of what it
-- returns.
use mathlib.Core.List.{reverse, reverse-cons, reverse-reverse, reverse-append}
use aurora_forwarder_contrac.Base.{
  ℕ, ◌+◌, ◌-◌, ◌*◌, ◌^◌, ◌≤◌, ◌<◌, ◌≡◌, refl, [], ◌∷◌, ◌++◌, append-nil, Bytes, All, All-append,
  length, length-append, ◌==◌, if◌then◌else◌, some, ok, arith, is_utf8-ascii,
}
use aurora_forwarder_contrac.Forwarder.Decimal.{
  drop_while, trim_matches, scan, parse_u128, vec_to_number, amount_to_str,
}
use aurora_forwarder_contrac.Forwarder.Decimal.Print.{
  IsDigit, value_from, decimal, decimal_sound, amount_to_str-decimal,
}

abbrev quote : Bytes
quote = b'"' ∷ []

le-value_from : (s : Bytes) (n : ℕ) → n ≤ value_from n s
le-value_from [] n = omega arith
le-value_from (c ∷ s) n = omega (arith, le-value_from s (n * 10 + (c - b'0')))

scan-value :
    (s : Bytes) (n : ℕ)
    → All IsDigit s
    → value_from n s < 2 ^ 128
    → scan s n ≡ some (value_from n s)
unfolding scan
scan-value [] n _ _ = refl
scan-value (c ∷ s) n (hc, hs) fits =
    let m = n * 10 + (c - b'0') in ground (arith, scan-value s m hs fits, le-value_from s m)

scan-lt : (s : Bytes) (n : ℕ) {r : ℕ} → n < 2 ^ 128 → scan s n ≡ some r → r < 2 ^ 128
unfolding scan
scan-lt [] n fits h = ground arith
scan-lt (c ∷ s) n {r} fits h = ground (arith, scan-lt s (n * 10 + (c - b'0')) {r = r})

parse_u128-value :
    (s : Bytes)
    → 1 ≤ length s
    → All IsDigit s
    → value_from 0 s < 2 ^ 128
    → parse_u128 s ≡ some (value_from 0 s)
unfolding parse_u128
parse_u128-value [] h _ _ = absurd (omega arith)
parse_u128-value (c ∷ []) h d v = scan-value (c ∷ []) 0 d v
parse_u128-value (c ∷ e ∷ s) h d v = ground (arith, scan-value (c ∷ e ∷ s) 0 d v)

-- Nothing is trimmed in front of a digit.
drop_while-digits : (s t : Bytes) → All IsDigit s → 1 ≤ length s → drop_while b'"' (s ++ t) ≡ s ++ t
unfolding drop_while
drop_while-digits [] t d h = absurd (omega arith)
drop_while-digits (c ∷ s) t d h = ground arith

drop_while-quote : (s : Bytes) → drop_while b'"' (b'"' ∷ s) ≡ drop_while b'"' s
unfolding drop_while
drop_while-quote s = refl

All-reverse : (s : Bytes) → All IsDigit s → All IsDigit (reverse s)
All-reverse [] h = tt
All-reverse (c ∷ s) (hc, hs) =
    rw reverse-cons (All-append IsDigit (reverse s) (c ∷ []) (All-reverse s hs) (hc, tt))

length-reverse : (s : Bytes) → length (reverse s) ≡ length s
length-reverse [] = refl
length-reverse (c ∷ s) = rw (reverse-cons, length-append) (omega (arith, length-reverse s))

drop_while-digits-All : (s : Bytes) → All IsDigit s → 1 ≤ length s → drop_while b'"' s ≡ s
drop_while-digits-All s d h = rw append-nil at (drop_while-digits s [] d h)

trim-digits : (s : Bytes) → All IsDigit s → 1 ≤ length s → trim_matches b'"' s ≡ s
unfolding trim_matches
trim-digits s d h =
    rw
      (
        drop_while-digits-All s d h,
        drop_while-digits-All (reverse s) (All-reverse s d) (omega (arith, length-reverse s)),
      )
      (reverse-reverse s)

trim-quoted :
    (s : Bytes) → All IsDigit s → 1 ≤ length s → trim_matches b'"' (b'"' ∷ (s ++ quote)) ≡ s
unfolding trim_matches
trim-quoted s d h =
    rw
      (
        drop_while-quote (s ++ quote),
        drop_while-digits s quote d h,
        reverse-append s quote,
        drop_while-quote (reverse s),
        drop_while-digits-All (reverse s) (All-reverse s d) (omega (arith, length-reverse s)),
      )
      (reverse-reverse s)

digits-ascii : (s : Bytes) → All IsDigit s → All (λ c. c < 128) s
digits-ascii [] _ = tt
digits-ascii (c ∷ s) (hc, hs) = (omega arith, digits-ascii s hs)

-- A JSON string of a token contract, `"1234"`, and the bare digits are both read as the amount
-- that was printed.
pub vec_to_number-amount_to_str :
    (n : ℕ)
    → n < 2 ^ 128
    → (s : Bytes) × (amount_to_str n ≡ ok s)
      × (vec_to_number s ≡ ok n)
      × (vec_to_number (b'"' ∷ (s ++ b'"' ∷ [])) ≡ ok n)
unfolding vec_to_number
vec_to_number-amount_to_str n h =
    let (value, all_digits, some_digit, _, _) = decimal_sound n h in
    let s = decimal n in
    let parsed : parse_u128 s ≡ some n =
      rw value at (parse_u128-value s some_digit all_digits (omega (arith, value))) in
    let ascii = digits-ascii s all_digits in
    (
      s,
      amount_to_str-decimal n h,
      rw (is_utf8-ascii s ascii, trim-digits s all_digits some_digit, parsed),
      rw (
        is_utf8-ascii (b'"' ∷ (s ++ quote))
            (omega arith, All-append (λ c. c < 128) s quote ascii (omega arith)),
        trim-quoted s all_digits some_digit,
        parsed,
      ),
    )

parse_u128-lt : (s : Bytes) {r : ℕ} → parse_u128 s ≡ some r → r < 2 ^ 128
unfolding parse_u128
parse_u128-lt [] h = cc
parse_u128-lt (c ∷ []) h = scan-lt (c ∷ []) 0 (omega arith) h
parse_u128-lt (c ∷ d ∷ s) h = scan-lt (if c == b'+' then d ∷ s else c ∷ d ∷ s) 0 (omega arith) h

-- Whatever bytes another contract returns, a number that is read from them is a u128.
pub vec_to_number-lt : (v : Bytes) {n : ℕ} → vec_to_number v ≡ ok n → n < 2 ^ 128
unfolding vec_to_number
vec_to_number-lt v {n} h = ground (arith, parse_u128-lt (trim_matches b'"' v) {r = n})
