-- ===== src/Base/Utf8.antt =====
-- `core::str::from_utf8` as a test: Rust's table of well-formed UTF-8.
use Prim.Native.Nat.{ℕ, zero, suc, ◌<◌}
use mathlib.Core.Path.{◌≡◌, refl}
use mathlib.Core.Bool.{Bool, true, false, ◌&&◌}
use mathlib.Core.Option.{Option, none, some}
use mathlib.Core.List.{[], ◌∷◌}
use native.Mathlib.Omega.{arith}
use aurora_forwarder_contrac.Base.Tests.{ltb, leb, ◌==◌, if◌then◌else◌}
use aurora_forwarder_contrac.Base.Lists.{Bytes, All}

-- How many continuation bytes follow a first byte, and the range of the next one.
lead_byte : ℕ → Option (ℕ × ℕ × ℕ)
lead_byte a =
    if ltb a 0x80
    then some (0, 0x80, 0xbf)
    else if leb 0xc2 a && leb a 0xdf
    then some (1, 0x80, 0xbf)
    else if a == 0xe0
    then some (2, 0xa0, 0xbf)
    else if a == 0xed
    then some (2, 0x80, 0x9f)
    else if leb 0xe1 a && leb a 0xef
    then some (2, 0x80, 0xbf)
    else if a == 0xf0
    then some (3, 0x90, 0xbf)
    else if leb 0xf1 a && leb a 0xf3
    then some (3, 0x80, 0xbf)
    else if a == 0xf4
    then some (3, 0x80, 0x8f)
    else none

utf8_from : ℕ → ℕ → ℕ → Bytes → Bool
utf8_from zero lo hi [] = true
utf8_from (suc n) lo hi [] = false
utf8_from zero lo hi (a ∷ s) = elim (lead_byte a) [
  | none ↦ false
  | some (n, l, h) ↦ utf8_from n l h s
]
utf8_from (suc n) lo hi (a ∷ s) = if leb lo a && leb a hi then utf8_from n 0x80 0xbf s else false

unfoldable pub is_utf8 : Bytes → Bool
unfolding utf8_from lead_byte
is_utf8 s = utf8_from 0 0x80 0xbf s

utf8_from-ascii : (lo hi : ℕ) (s : Bytes) → All (λ c. c < 128) s → utf8_from 0 lo hi s ≡ true
unfolding utf8_from lead_byte
utf8_from-ascii lo hi [] h = refl
utf8_from-ascii lo hi (a ∷ s) h = ground (arith, utf8_from-ascii 0x80 0xbf s h.1)

-- ASCII text is well formed.
pub is_utf8-ascii : (s : Bytes) → All (λ c. c < 128) s → is_utf8 s ≡ true
unfolding is_utf8
is_utf8-ascii s h = utf8_from-ascii 0x80 0xbf s h
