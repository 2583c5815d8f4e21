-- ===== src/Forwarder/Reader.antt =====
-- `borsh::io::Read` on a byte slice, as far as the contract's own readers use it.
use aurora_forwarder_contrac.Base.{
  ℕ, ◌≡◌, ◌++◌, Bytes, length, take, drop, length-append, take-append, drop-append, leb, le→leb,
  if◌then◌else◌, Result, ok, err, arith,
}
use aurora_forwarder_contrac.Crates.{IoError, unexpected_eof}

-- `reader.read_exact(buf)` for a buffer of `n` bytes; the rest stays unread.
unfoldable pub read_exact : ℕ → Bytes → Result IoError (Bytes × Bytes)
read_exact n s = if leb n (length s) then ok (take n s, drop n s) else err unexpected_eof

pub read_exact-append : (s r : Bytes) → read_exact (length s) (s ++ r) ≡ ok (s, r)
unfolding read_exact
read_exact-append s r = rw (
  le→leb (length s) (length (s ++ r)) (omega (arith, length-append s r)),
  take-append,
  drop-append,
)
