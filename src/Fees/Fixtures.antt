-- ===== src/Fees/Fixtures.antt =====
-- An order on numbers, floats and a state of the fees contract for the tests, with numbers as
-- accounts, and readers that take the length of a name for the account.
use Prim.Native.Nat.{compare, Ordering}
use aurora_forwarder_contrac.Base.{
  ℕ, ◌-◌, ◌*◌, ◌/◌, ◌^◌, ◌≡◌, ◌↔◌, ◌<◌, refl, ◌||◌, some, [], ◌∷◌, Bytes, ltb, if◌then◌else◌, ok,
  arith,
}
use aurora_forwarder_contrac.Base.Results.{◌>>=◌}
use aurora_forwarder_contrac.Base.{Result, err, codes}
use aurora_forwarder_contrac.BTreeSet.{Ord}
use aurora_forwarder_contrac.Fees.{FeesCalculator}
use aurora_forwarder_contrac.Fees.Percent.{Float}
use aurora_forwarder_contrac.Base.{length}
use aurora_forwarder_contrac.Crates.Reference.{reference, reference-IsDocumented}
use aurora_forwarder_contrac.Fees.Interface.{Readers, AreDocumented}
use aurora_forwarder_contrac.Forwarder.AccountId
use aurora_forwarder_contrac.Forwarder.AccountId.{AccountId}
use aurora_forwarder_contrac.Forwarder.AccountId.Codec.{deserialize_reader-encoding}
use aurora_forwarder_contrac.Forwarder.Reader.{read_exact, read_exact-append}

pub compare_eq : (a b : ℕ) → (compare a b ≡ Ordering.eq) ↔ (a ≡ b)
compare_eq a b = ground arith

pub compare_flip : (a b : ℕ) → (compare a b ≡ Ordering.lt) ↔ (compare b a ≡ Ordering.gt)
compare_flip a b = ground arith

pub compare_trans :
    (a b c : ℕ) → compare a b ≡ Ordering.lt → compare b c ≡ Ordering.lt → compare a c ≡ Ordering.lt
compare_trans a b c h k = ground arith

abbrev pub saturate : ℕ → ℕ
saturate n = if ltb n (2 ^ 64) then n else 2 ^ 64 - 1

pub saturate-lt : (n : ℕ) → saturate n < 2 ^ 64
saturate-lt n = ground arith

abbrev pub by_number : Ord ℕ
by_number = record {
  cmp = compare;
  cmp_eq = compare_eq;
  cmp_flip = compare_flip;
  cmp_trans = compare_trans;
}

-- Texts of one digit as whole numbers.
abbrev pub digit : Bytes → Result Bytes ℕ
digit (c ∷ []) =
    if ltb c b'0' || ltb b'9' c then err (codes "invalid float literal") else ok (c - b'0')
digit _ = err (codes "invalid float literal")

-- Numbers in place of floats; the cast saturates.
abbrev pub whole : Float
whole = record {
  F = ℕ;
  from_str = digit;
  of_u64 = λ n. n;
  mul = λ a b. a * b;
  div = λ a b. a / b;
  to_u64 = saturate;
  to_u64_fits = saturate-lt;
  show_2 = λ n. [];
}

abbrev pub one_token : FeesCalculator ℕ
one_token = record { percent = some 500; owner = 1; supported_tokens = 7 ∷ [] }

-- The account of a name is the length of the name.
abbrev pub account_of : AccountId → ℕ
account_of id = length id.as_bytes

abbrev pub readers : Readers ℕ
readers = record {
  read_account = λ s. do
    (id, rest) ← AccountId.deserialize_reader reference s
    ok (account_of id, rest);
  read_address = read_exact 20;
}

pub readers-AreDocumented : AreDocumented reference readers account_of
readers-AreDocumented = record {
  account_back =
      λ id rest h. rw (deserialize_reader-encoding reference-IsDocumented id rest h) refl;
  address_back = λ raw rest h. rw h at (read_exact-append raw rest);
}
