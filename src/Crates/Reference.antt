-- ===== src/Crates/Reference.antt =====
-- A concrete `Crates`, which shows that the documented behaviour can be met: little-endian
-- integers, hexadecimal digits, and buffers that refuse what does not fit.
use native.Mathlib.Nat.{pow-suc}
use aurora_forwarder_contrac.Base.{
  ℕ, zero, suc, ◌+◌, ◌-◌, ◌*◌, ◌/◌, ◌%◌, ◌^◌, ◌<◌, ◌≡◌, refl, ap, none, some, [], ◌∷◌, ◌++◌, Bytes,
  length, Result, ok, err, arith, ltb, leb, if◌then◌else◌, le→leb, lt→not_leb, lt→ltb, All,
}
use aurora_forwarder_contrac.Crates.{Crates, IsByte, IoError, unexpected_eof, other, IsDocumented}

-- `k` bytes of `n`, the least significant first.
unfoldable pub le_bytes : ℕ → ℕ → Bytes
le_bytes zero n = []
le_bytes (suc k) n = (n % 256) ∷ le_bytes k (n / 256)

-- A number behind its lowest byte.
abbrev behind_byte : ℕ → Result IoError (ℕ × Bytes) → Result IoError (ℕ × Bytes)
behind_byte b (ok (n, r)) = ok (b + 256 * n, r)
behind_byte b (err e) = err e

unfoldable pub read_le : ℕ → Bytes → Result IoError (ℕ × Bytes)
read_le zero s = ok (0, s)
read_le (suc k) [] = err unexpected_eof
read_le (suc k) (b ∷ s) = behind_byte b (read_le k s)

unfoldable pub hex_digit : ℕ → ℕ
hex_digit d = if ltb d 10 then b'0' + d else b'a' + d - 10

unfoldable pub hex : Bytes → Bytes
unfolding hex_digit
hex [] = []
hex (b ∷ s) = hex_digit (b / 16) ∷ hex_digit (b % 16) ∷ hex s

unfoldable pub str : Bytes → Result IoError Bytes
unfolding le_bytes
str s = if ltb (length s) (2 ^ 32) then ok (le_bytes 4 (length s) ++ s) else err other

abbrev pub reference : Crates
reference = record {
  try_push_str = λ cap s t. if leb (length s + length t) cap then some (s ++ t) else none;
  try_from_slice = λ cap s. if leb (length s) cap then some s else none;
  bytes_to_hex = hex;
  write_u32 = le_bytes 4;
  write_u64 = le_bytes 8;
  write_u128 = le_bytes 16;
  write_str = str;
  read_u32 = read_le 4;
  read_u64 = read_le 8;
  read_u128 = read_le 16;
}

length-le_bytes : (k n : ℕ) → length (le_bytes k n) ≡ k
unfolding le_bytes
length-le_bytes zero n = refl
length-le_bytes (suc k) n = ap suc (length-le_bytes k (n / 256))

length-hex : (s : Bytes) → length (hex s) ≡ 2 * length s
unfolding hex
length-hex [] = refl
length-hex (b ∷ s) = omega (arith, length-hex s)

read_le-le_bytes : (k n : ℕ) (r : Bytes) → n < 256 ^ k → read_le k (le_bytes k n ++ r) ≡ ok (n, r)
unfolding read_le le_bytes
read_le-le_bytes zero n r h = ground arith
read_le-le_bytes (suc k) n r h =
    rw (read_le-le_bytes k (n / 256) r (omega (arith, pow-suc 256 k))) (ground arith)

-- A first byte before a number of `k` bytes.
first_byte-lt :
    (b k : ℕ) (q : Result IoError (ℕ × Bytes)) {r : Bytes} {n : ℕ}
    → b < 256
    → ((x : ℕ) (t : Bytes) → q ≡ ok (x, t) → x < 256 ^ k)
    → behind_byte b q ≡ ok (n, r)
    → n < 256 ^ suc k
first_byte-lt b k (ok (x, t)) {r} {n} low bound h =
    let value : b + 256 * x ≡ n = number_of h in omega (arith, value, bound x t refl, pow-suc 256 k)
  where
    number_of :
        {y z : ℕ} {u v : Bytes}
        → ◌≡◌ {A = Result IoError (ℕ × Bytes)} (ok (y, u)) (ok (z, v))
        → y ≡ z
    number_of e = cc
first_byte-lt b k (err e) low bound h = absurd cc

read_le-lt :
    (k : ℕ) (s : Bytes) {r : Bytes} {n : ℕ} → All IsByte s → read_le k s ≡ ok (n, r) → n < 256 ^ k
unfolding read_le
read_le-lt zero s bytes h = grind arith
read_le-lt (suc k) [] bytes h = absurd cc
read_le-lt (suc k) (b ∷ s) {r} {n} (low, bytes) h =
    first_byte-lt b k (read_le k s) low (λ x t e. read_le-lt k s bytes e) h

pub reference-IsDocumented : IsDocumented reference
unfolding str
reference-IsDocumented = record {
  push_fits = λ cap s t h. rw (le→leb _ _ h);
  push_full = λ cap s t h. rw (lt→not_leb _ _ h);
  slice_fits = λ cap s h. rw (le→leb _ _ h);
  hex_length = length-hex;
  u32_length = length-le_bytes 4;
  u64_length = length-le_bytes 8;
  u128_length = length-le_bytes 16;
  u32_back = read_le-le_bytes 4;
  u64_back = read_le-le_bytes 8;
  u128_back = read_le-le_bytes 16;
  u128_fits = λ s r n bytes h. read_le-lt 16 s bytes h;
  str_layout = λ s h. rw (lt→ltb _ _ h);
}
