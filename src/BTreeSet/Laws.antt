-- ===== src/BTreeSet/Laws.antt =====
-- The laws of the sorted list that stands for a set: insertion, removal and membership.
use Prim.Native.Nat.{Ordering}
use aurora_forwarder_contrac.Base.{
  ◌≡◌, ◌≢◌, refl, true, false, List, [], ◌∷◌, All, arith, ◌⊎◌, inl, inr,
}
use aurora_forwarder_contrac.BTreeSet.{Ord, contains, insert, remove, collect, IsSorted}

cmp-cases : (c : Ordering) → (c ≡ Ordering.lt) ⊎ ((c ≡ Ordering.eq) ⊎ (c ≡ Ordering.gt))
cmp-cases Ordering.lt = inl refl
cmp-cases Ordering.eq = inr (inl refl)
cmp-cases Ordering.gt = inr (inr refl)

module _ {A : Type 0} (o : Ord A) where
  pub cmp_refl : (a : A) → o.cmp a a ≡ Ordering.eq
  cmp_refl a = (o.cmp_eq a a).1 refl

  -- What lies above every element lies above those of a smaller bound.
  above :
      (a x : A) (xs : List A)
      → o.cmp a x ≡ Ordering.lt
      → All (λ y. o.cmp x y ≡ Ordering.lt) xs
      → All (λ y. o.cmp a y ≡ Ordering.lt) xs
  above a x [] lt h = tt
  above a x (y ∷ ys) lt (hy, hs) = (o.cmp_trans a x y lt hy, above a x ys lt hs)

  insert-above :
      (a x : A) (xs : List A)
      → o.cmp x a ≡ Ordering.lt
      → All (λ y. o.cmp x y ≡ Ordering.lt) xs
      → All (λ y. o.cmp x y ≡ Ordering.lt) (insert o xs a)
  unfolding insert
  insert-above a x [] lt h = (lt, tt)
  insert-above a x (y ∷ ys) lt (hy, hs) = ground (arith, insert-above a x ys lt hs)

  remove-above :
      (a x : A) (xs : List A)
      → All (λ y. o.cmp x y ≡ Ordering.lt) xs
      → All (λ y. o.cmp x y ≡ Ordering.lt) (remove o xs a)
  unfolding remove
  remove-above a x [] h = tt
  remove-above a x (y ∷ ys) (hy, hs) = ground (arith, remove-above a x ys hs)

  pub insert-IsSorted : (xs : List A) (a : A) → IsSorted o xs → IsSorted o (insert o xs a)
  unfolding insert
  insert-IsSorted [] a h = (tt, tt)
  insert-IsSorted (x ∷ xs) a (hx, hs) =
      ground (arith, insert-IsSorted xs a hs, insert-above a x xs, above a x xs, (o.cmp_flip x a).1)

  pub remove-IsSorted : (xs : List A) (a : A) → IsSorted o xs → IsSorted o (remove o xs a)
  unfolding remove
  remove-IsSorted [] a h = tt
  remove-IsSorted (x ∷ xs) a (hx, hs) =
      ground (arith, remove-IsSorted xs a hs, remove-above a x xs hx)

  pub collect-IsSorted : (set xs : List A) → IsSorted o set → IsSorted o (collect o set xs)
  unfolding collect
  collect-IsSorted set [] h = h
  collect-IsSorted set (a ∷ as') h = collect-IsSorted (insert o set a) as' (insert-IsSorted set a h)

  -- An element below every element is not in the set.
  contains-below :
      (xs : List A) (b : A) → All (λ y. o.cmp b y ≡ Ordering.lt) xs → contains o xs b ≡ false
  unfolding contains
  contains-below [] b h = refl
  contains-below (y ∷ ys) b (hy, _) = ground (arith, hy)

  pub contains-insert_self : (xs : List A) (a : A) → contains o (insert o xs a) a ≡ true
  unfolding contains insert
  contains-insert_self [] a = ground (arith, cmp_refl a)
  contains-insert_self (x ∷ xs) a = ground (arith, cmp_refl a, contains-insert_self xs a)

  pub contains-insert_ne :
      (xs : List A) (a b : A) → b ≢ a → contains o (insert o xs a) b ≡ contains o xs b
  unfolding contains insert
  contains-insert_ne [] a b ne = ground (arith, o.cmp_eq b a)
  contains-insert_ne (x ∷ xs) a b ne =
      ground (arith, o.cmp_eq b a, o.cmp_trans b a x, contains-insert_ne xs a b ne)

  pub contains-remove_self :
      (xs : List A) (a : A) → IsSorted o xs → contains o (remove o xs a) a ≡ false
  unfolding contains remove
  contains-remove_self [] a h = refl
  contains-remove_self (x ∷ xs) a (hx, hs) = elim (cmp-cases (o.cmp a x)) [
    | inl lt ↦ ground (arith, lt)
    | inr (inl eq) ↦
        let same : a ≡ x = (o.cmp_eq a x).0 eq in
        ground (arith, eq, contains-below xs a (rw same hx))
    | inr (inr gt) ↦ ground (arith, gt, contains-remove_self xs a hs)
  ]

  pub contains-remove_ne :
      (xs : List A) (a b : A)
      → IsSorted o xs
      → b ≢ a
      → contains o (remove o xs a) b ≡ contains o xs b
  unfolding contains remove
  contains-remove_ne [] a b h ne = refl
  contains-remove_ne (x ∷ xs) a b (hx, hs) ne = ground (
    arith,
    o.cmp_eq a x,
    o.cmp_eq b x,
    above b x xs,
    contains-below xs b,
    contains-remove_ne xs a b hs ne,
  )

  pub remove-insert :
      (xs : List A) (a : A)
      → IsSorted o xs
      → contains o xs a ≡ false
      → remove o (insert o xs a) a ≡ xs
  unfolding contains insert remove
  remove-insert [] a h fresh = ground (arith, cmp_refl a)
  remove-insert (x ∷ xs) a (hx, hs) fresh = ground (arith, cmp_refl a, remove-insert xs a hs)
