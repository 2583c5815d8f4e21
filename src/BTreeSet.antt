-- ===== src/BTreeSet.antt =====
-- `BTreeSet` of Rust's standard library, as the fees contract uses it: the elements in ascending
-- order, each once.
pub mod Laws
use Prim.Native.Nat.{Ordering}
use aurora_forwarder_contrac.Base.{◌≡◌, ◌↔◌, Bool, true, false, List, [], ◌∷◌, All}

-- `Ord`, with the laws that its documentation asks for.
pub record Ord (A : Type 0) : Type 0 where
  pub cmp : A → A → Ordering
  pub cmp_eq : (a b : A) → (cmp a b ≡ Ordering.eq) ↔ (a ≡ b)
  pub cmp_flip : (a b : A) → (cmp a b ≡ Ordering.lt) ↔ (cmp b a ≡ Ordering.gt)
  pub cmp_trans :
      (a b c : A) → cmp a b ≡ Ordering.lt → cmp b c ≡ Ordering.lt → cmp a c ≡ Ordering.lt

module _ {A : Type 0} (o : Ord A) where
  unfoldable pub contains : List A → A → Bool
  contains [] a = false
  contains (x ∷ xs) a = elim (o.cmp a x) [
    | Ordering.lt ↦ false
    | Ordering.eq ↦ true
    | Ordering.gt ↦ contains xs a
  ]

  -- The set with `a` in it; whether it is new is `not (contains xs a)`.
  unfoldable pub insert : List A → A → List A
  insert [] a = a ∷ []
  insert (x ∷ xs) a = elim (o.cmp a x) [
    | Ordering.lt ↦ a ∷ x ∷ xs
    | Ordering.eq ↦ x ∷ xs
    | Ordering.gt ↦ x ∷ insert xs a
  ]

  unfoldable pub remove : List A → A → List A
  remove [] a = []
  remove (x ∷ xs) a = elim (o.cmp a x) [
    | Ordering.lt ↦ x ∷ xs
    | Ordering.eq ↦ xs
    | Ordering.gt ↦ x ∷ remove xs a
  ]

  -- `into_iter().collect()`
  unfoldable pub collect : List A → List A → List A
  collect set [] = set
  collect set (a ∷ as') = collect (insert set a) as'

  -- Strictly ascending.
  abbrev pub IsSorted : List A → Type 0
  IsSorted [] = Unit
  IsSorted (x ∷ xs) = All (λ y. o.cmp x y ≡ Ordering.lt) xs × IsSorted xs
