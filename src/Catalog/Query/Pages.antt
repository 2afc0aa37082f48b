-- ===== src/Catalog/Query/Pages.antt =====
-- What the clipping of a query and its pages promise.
use orbit_control.Prelude.{
  ℕ, zero, suc, ◌+◌, ◌-◌, ◌*◌, ◌≤◌, String, Bool, true, false, ◌≡◌, refl, sym, ◌∙◌, ap, List, [],
  ◌∷◌, ◌++◌, ltb, if◌then◌else◌, length, take, drop, arith, Bool-cases, inl, inr, All,
}
use orbit_control.Prelude.Int.{ℤ, pos, negsuc, pos_part}
use orbit_control.Prelude.Sort.{sort_by, Ordered, sort_by-All, sort_by-Ordered}
use orbit_control.Text.{trim_space}
use orbit_control.Text.Order.{without_nul, rune_count, rune_count-take}
use orbit_control.Catalog.Query.{clip_text, clip_token, page_items, all_token, clamp}

clip_text-bounded : (s : String) (n : ℕ) → rune_count (clip_text s n) ≤ n
unfolding clip_text
clip_text-bounded s n = ground (arith, rune_count-take n (trim_space (without_nul s)))

empty_token : rune_count "" ≡ 0
unfolding rune_count
empty_token = refl

empty_all : all_token "" ≡ true
unfolding all_token
empty_all = refl

-- A clipped token has at most `n` runes, and each is a letter, a digit, a dot, a dash or an underscore.
pub clip_token-bounded :
    (s : String) (n : ℕ) → (rune_count (clip_token s n) ≤ n) × (all_token (clip_token s n) ≡ true)
unfolding clip_token
clip_token-bounded s n = ground (arith, clip_text-bounded s n, empty_token, empty_all)

-- A bound of a page, as the code moves it into the list.
abbrev bounded : ℕ → ℕ → ℕ
bounded total i = if ltb total i then total else i

no_pages : (n : ℕ) → 0 ≡ 0 * n
no_pages n = omega arith

next_page : (k n : ℕ) → k * n + n ≡ suc k * n
next_page k n = grind arith

suc-add : (m n : ℕ) → suc m + n ≡ suc (m + n)
suc-add m n = omega arith

pages_before : (k : ℕ) → suc k - 1 ≡ k
pages_before k = omega arith

module _ {A : Type 0} where
  take-all : (n : ℕ) (xs : List A) → length xs ≤ n → take n xs ≡ xs
  take-all zero [] h = refl
  take-all zero (x ∷ xs) h = ground arith
  take-all (suc n) [] h = refl
  take-all (suc n) (x ∷ xs) h = ap (λ l. x ∷ l) (take-all n xs (omega (arith, h)))

  drop-all : (n : ℕ) (xs : List A) → length xs ≤ n → drop n xs ≡ []
  drop-all zero [] h = refl
  drop-all zero (x ∷ xs) h = ground arith
  drop-all (suc n) [] h = refl
  drop-all (suc n) (x ∷ xs) h = drop-all n xs (omega (arith, h))

  take-nil : (n : ℕ) (xs : List A) → xs ≡ [] → take n xs ≡ xs
  take-nil zero xs h = sym h
  take-nil (suc n) xs h = rw h refl

  length-drop : (n : ℕ) (xs : List A) → length (drop n xs) ≡ length xs - n
  length-drop zero xs = omega arith
  length-drop (suc n) [] = omega arith
  length-drop (suc n) (x ∷ xs) = omega (arith, length-drop n xs)

  take-add : (m n : ℕ) (xs : List A) → take (m + n) xs ≡ take m xs ++ take n (drop m xs)
  take-add zero n xs = ap (λ i. take i xs) (omega arith)
  take-add (suc m) n [] = take-nil (suc m + n) [] refl ∙ sym (take-nil n [] refl)
  take-add (suc m) n (x ∷ xs) =
      ap (λ i. take i (x ∷ xs)) (suc-add m n) ∙ ap (λ l. x ∷ l) (take-add m n xs)

  length-take : (n : ℕ) (xs : List A) → length (take n xs) ≤ n
  length-take zero xs = omega arith
  length-take (suc n) [] = omega arith
  length-take (suc n) (x ∷ xs) = omega (arith, length-take n xs)

  take-bounded :
      (from n : ℕ) (xs : List A)
      → take (bounded (length xs) (from + n) - from) (drop from xs) ≡ take n (drop from xs)
  take-bounded from n xs = elim (Bool-cases (ltb (length xs) (from + n))) [
    | inl h ↦ rw h (
        take-all (length xs - from) (drop from xs) (omega (arith, length-drop from xs))
        ∙ sym (take-all n (drop from xs) (ground (arith, length-drop from xs))))
    | inr h ↦ rw h (ap (λ i. take i (drop from xs)) (omega arith))
  ]

  page_bounds :
      (from n : ℕ) (xs : List A)
      → take
          (bounded (length xs) (bounded (length xs) from + n) - bounded (length xs) from)
          (drop (bounded (length xs) from) xs)
        ≡ take n (drop from xs)
  page_bounds from n xs = elim (Bool-cases (ltb (length xs) from)) [
    | inl h ↦ rw h (
        take-bounded (length xs) n xs
        ∙ ap (take n)
            (drop-all (length xs) xs (omega arith) ∙ sym (drop-all from xs (ground arith))))
    | inr h ↦ rw h (take-bounded from n xs)
  ]

  -- A page is what stands behind the pages before it, at most its size.
  pub page_items-slice :
      (page size : ℤ) (xs : List A)
      → page_items page size xs
        ≡ take (pos_part size) (drop ((pos_part page - 1) * pos_part size) xs)
  unfolding page_items
  page_items-slice page size xs =
      page_bounds ((pos_part page - 1) * pos_part size) (pos_part size) xs

  -- A page of size `n` after `k` others is what stands there in the whole list.
  page_items_lem :
      (k n : ℕ) (xs : List A) → page_items (pos (suc k)) (pos n) xs ≡ take n (drop (k * n) xs)
  unfolding page_items
  page_items_lem k n xs = rw (pages_before k) (page_bounds (k * n) n xs)

  -- The first `pages` pages of a list, one after the other.
  abbrev pub first_pages : ℕ → ℕ → List A → List A
  first_pages zero n xs = []
  first_pages (suc k) n xs = first_pages k n xs ++ page_items (pos (suc k)) (pos n) xs

  -- Page after page a reader sees the whole list: the first `k` pages of size `n`, one after the
  -- other, are the first `k * n` elements in their order, none left out and none twice.
  pub pages-cover : (k n : ℕ) (xs : List A) → first_pages k n xs ≡ take (k * n) xs
  pages-cover zero n xs = ap (λ i. take i xs) (no_pages n)
  pages-cover (suc k) n xs =
      rw (page_items_lem k n xs) (
        rw (pages-cover k n xs) (sym (take-add (k * n) n xs) ∙ ap (λ i. take i xs) (next_page k n)))

  module _ (P : A → Type 0) where
    take-All : (n : ℕ) (xs : List A) → All P xs → All P (take n xs)
    take-All zero xs h = tt
    take-All (suc n) [] h = tt
    take-All (suc n) (x ∷ xs) (p, h) = (p, take-All n xs h)

    drop-All : (n : ℕ) (xs : List A) → All P xs → All P (drop n xs)
    drop-All zero xs h = h
    drop-All (suc n) [] h = tt
    drop-All (suc n) (x ∷ xs) (p, h) = drop-All n xs h

  module _ (less : A → A → Bool) where
    take-Ordered : (n : ℕ) (xs : List A) → Ordered less xs → Ordered less (take n xs)
    take-Ordered zero xs h = tt
    take-Ordered (suc n) [] h = tt
    take-Ordered (suc n) (x ∷ xs) (p, h) =
        (take-All (λ y. less y x ≡ false) n xs p, take-Ordered n xs h)

    drop-Ordered : (n : ℕ) (xs : List A) → Ordered less xs → Ordered less (drop n xs)
    drop-Ordered zero xs h = h
    drop-Ordered (suc n) [] h = tt
    drop-Ordered (suc n) (x ∷ xs) (p, h) = drop-Ordered n xs h

    -- A page of sorted matches is sorted, holds matches only and has no more than its size.
    pub page_items-sorted :
        (P : A → Type 0) (asym : (x y : A) → less y x ≡ true → less x y ≡ false)
        (trans : (x y z : A) → less y x ≡ false → less z y ≡ false → less z x ≡ false)
        (page page_size : ℤ) (xs : List A)
        → All P xs
        → (length (page_items page page_size (sort_by less xs)) ≤ pos_part page_size)
          × All P (page_items page page_size (sort_by less xs))
          × Ordered less (page_items page page_size (sort_by less xs))
    unfolding page_items
    page_items-sorted P asym trans page page_size xs h =
        let ys = sort_by less xs in
        let total = length ys in
        let start = bounded total ((pos_part page - 1) * pos_part page_size) in
        let n = bounded total (start + pos_part page_size) - start in
        (
          ground (arith, length-take n (drop start ys)),
          take-All P n (drop start ys) (drop-All P start ys (sort_by-All less P xs h)),
          take-Ordered n (drop start ys)
              (drop-Ordered start ys (sort_by-Ordered less asym trans xs)),
        )

-- A page number or size that the clamp lets through is within its bounds.
pub clamp-bounds :
    (default most : ℕ) (v : ℤ)
    → 1 ≤ default
    → default ≤ most
    → (1 ≤ pos_part (clamp (pos default) (pos most) v))
      × (pos_part (clamp (pos default) (pos most) v) ≤ most)
clamp-bounds default most (pos n) h k = ground arith
clamp-bounds default most (negsuc n) h k = ground arith
