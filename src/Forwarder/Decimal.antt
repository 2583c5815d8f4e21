-- ===== src/Forwarder/Decimal.antt =====
-- forwarder/src/params.rs: amounts as decimal text, `amount_to_str` and `vec_to_number`.
pub mod Print
pub mod Parse
use mathlib.Core.List.{reverse}
use aurora_forwarder_contrac.Base.{
  ℕ, zero, suc, ◌+◌, ◌-◌, ◌*◌, ◌/◌, ◌%◌, ◌^◌, [], ◌∷◌, ◌++◌, Bytes, ltb, leb, ◌==◌, ◌||◌,
  if◌then◌else◌, Option, none, some, Result, ok, err, map_err, ok_or, trap, is_utf8,
}
use aurora_forwarder_contrac.Base.Results.{◌>>=◌, Outcome}
use aurora_forwarder_contrac.Forwarder.Error.{ContractError, bad_utf8_string, bad_number}

-- The size of the buffer, and of the `ArrayString` that holds the result.
abbrev pub max_digits : ℕ
max_digits = 39

-- `while amount > 0`: `room` is what is left of the buffer, and a write behind its end panics.
-- The written part of the buffer is `written`.
emit : ℕ → ℕ → Bytes → Outcome Bytes
emit zero amount written = if amount == 0 then ok written else err trap
emit (suc room) amount written =
    let rest = emit room (amount / 10) (written ++ (b'0' + amount % 10) ∷ []) in
    if amount == 0 then ok written else rest

-- The copy into the `ArrayString` cannot overflow it: both hold 39 characters.
unfoldable pub amount_to_str : ℕ → Outcome Bytes
unfolding emit
amount_to_str amount =
    if amount == 0
    then ok (b'0' ∷ [])
    else do written ← emit max_digits amount []; ok (reverse written)

-- `trim_start_matches(q)` on a text of bytes.
drop_while : ℕ → Bytes → Bytes
drop_while q [] = []
drop_while q (c ∷ s) = if c == q then drop_while q s else c ∷ s

-- `trim_matches(q)`
trim_matches : ℕ → Bytes → Bytes
trim_matches q s = reverse (drop_while q (reverse (drop_while q s)))

-- `u128::from_str`: an optional plus sign, then digits, each step checked for overflow.
scan : Bytes → ℕ → Option ℕ
scan [] n = some n
scan (c ∷ s) n =
    let m = n * 10 + (c - b'0') in
    if ltb c b'0' || ltb b'9' c then none else if leb (2 ^ 128) m then none else scan s m

parse_u128 : Bytes → Option ℕ
parse_u128 [] = none
parse_u128 (c ∷ []) = scan (c ∷ []) 0
parse_u128 (c ∷ d ∷ s) = scan (if c == b'+' then d ∷ s else c ∷ d ∷ s) 0

unfoldable pub vec_to_number : Bytes → Result ContractError ℕ
unfolding parse_u128 scan trim_matches drop_while
vec_to_number v =
    if is_utf8 v then ok_or (parse_u128 (trim_matches b'"' v)) bad_number else err bad_utf8_string
