-- ===== src/Prelude/Sort.antt =====
-- The stable sort that models `sort.Slice` and `sort.SliceStable`: an element goes in front of those
-- that are not less than it. Where two elements tie, `sort.Slice` may order them either way.
use mathlib.Core.Path.{◌≡◌}
use mathlib.Core.Logic.{◌↔◌, ◌⊎◌, inl, inr}
use mathlib.Core.Bool.{Bool, true, false}
use mathlib.Core.List.{List, [], ◌∷◌, Perm}
use mathlib.Core.List.Perm
use native.Mathlib.Omega.{arith}
use orbit_control.Prelude.Tests.{if◌then◌else◌, All, Occurs, Bool-cases}

module _ {A : Type 0} (less : A → A → Bool) where
  pub insert_by : A → List A → List A
  insert_by x [] = x ∷ []
  insert_by x (y ∷ ys) = let rest = insert_by x ys in if less y x then y ∷ rest else x ∷ y ∷ ys

  unfoldable pub sort_by : List A → List A
  unfolding insert_by
  sort_by [] = []
  sort_by (x ∷ xs) = insert_by x (sort_by xs)

  -- No later element is less than an earlier one.
  abbrev pub Ordered : List A → Type 0
  Ordered [] = Unit
  Ordered (x ∷ xs) = All (λ y. less y x ≡ false) xs × Ordered xs

  insert_by-perm : (x : A) (xs : List A) → Perm (insert_by x xs) (x ∷ xs)
  unfolding insert_by
  insert_by-perm x [] = Perm.refl (x ∷ [])
  insert_by-perm x (y ∷ ys) = elim (Bool-cases (less y x)) [
    | inl h ↦ rw h (Perm.trans (Perm.cons y (insert_by-perm x ys)) (Perm.swap x y ys))
    | inr h ↦ rw h (Perm.refl (x ∷ y ∷ ys))
  ]

  -- Sorting loses and adds nothing.
  pub sort_by-perm : (xs : List A) → Perm (sort_by xs) xs
  unfolding sort_by
  sort_by-perm [] = Perm.refl []
  sort_by-perm (x ∷ xs) = Perm.trans (insert_by-perm x (sort_by xs)) (Perm.cons x (sort_by-perm xs))

  insert_by-All : (P : A → Type 0) (x : A) (xs : List A) → P x → All P xs → All P (insert_by x xs)
  unfolding insert_by
  insert_by-All P x [] p h = (p, tt)
  insert_by-All P x (y ∷ ys) p h = ground (arith, insert_by-All P x ys p)

  pub sort_by-All : (P : A → Type 0) (xs : List A) → All P xs → All P (sort_by xs)
  unfolding sort_by
  sort_by-All P [] h = tt
  sort_by-All P (x ∷ xs) (p, h) = insert_by-All P x (sort_by xs) p (sort_by-All P xs h)

  insert_by-Occurs : (a x : A) (xs : List A) → Occurs a (insert_by x xs) ↔ ((a ≡ x) ⊎ Occurs a xs)
  unfolding insert_by
  insert_by-Occurs a x [] = ((λ o. o), λ o. o)
  insert_by-Occurs a x (y ∷ ys) = ground (arith, insert_by-Occurs a x ys)

  -- Sorting keeps what occurs.
  pub sort_by-Occurs : (a : A) (xs : List A) → Occurs a (sort_by xs) ↔ Occurs a xs
  unfolding sort_by
  sort_by-Occurs a [] = ((λ o. o), λ o. o)
  sort_by-Occurs a (x ∷ xs) = ground (arith, insert_by-Occurs a x (sort_by xs), sort_by-Occurs a xs)

  module _ (asym : (x y : A) → less y x ≡ true → less x y ≡ false)
      (trans : (x y z : A) → less y x ≡ false → less z y ≡ false → less z x ≡ false) where
    All-not_less :
        (x y : A) (zs : List A)
        → less y x ≡ false
        → All (λ z. less z y ≡ false) zs
        → All (λ z. less z x ≡ false) zs
    All-not_less x y [] h k = tt
    All-not_less x y (z ∷ zs) h (k, ks) = (trans x y z h k, All-not_less x y zs h ks)

    insert_by-Ordered : (x : A) (xs : List A) → Ordered xs → Ordered (insert_by x xs)
    unfolding insert_by
    insert_by-Ordered x [] h = (tt, tt)
    insert_by-Ordered x (y ∷ ys) (h, hs) = elim (Bool-cases (less y x)) [
      | inl p ↦
          rw p
            (insert_by-All (λ z. less z y ≡ false) x ys (asym x y p) h, insert_by-Ordered x ys hs)
      | inr p ↦ rw p ((p, All-not_less x y ys p h), (h, hs))
    ]

    -- The result is in order.
    pub sort_by-Ordered : (xs : List A) → Ordered (sort_by xs)
    unfolding sort_by
    sort_by-Ordered [] = tt
    sort_by-Ordered (x ∷ xs) = insert_by-Ordered x (sort_by xs) (sort_by-Ordered xs)
