-- ===== src/Catalog/Query/Order.antt =====
-- The comparisons of the catalogs' sorts are orders.
use orbit_control.Prelude.{
  ℕ, ◌+◌, String, Bool, true, false, ◌≡◌, not, ltb, ◌==◌, if◌then◌else◌, arith,
}
use orbit_control.Prelude.Int.{ℤ, pos_part, neg_part}
use orbit_control.Text.Order.{less_text, less_text_asym, less_text_trans}
use orbit_control.Catalog.Query.{descending, later}

pub later_asym :
    (a b : ℕ) (s t : String) → later b a (less_text t s) ≡ true → later a b (less_text s t) ≡ false
later_asym a b s t h = ground (arith, less_text_asym t s)

pub later_trans :
    (a b c : ℕ) (s t u : String)
    → later b a (less_text t s) ≡ false
    → later c b (less_text u t) ≡ false
    → later c a (less_text u s) ≡ false
later_trans a b c s t u h k = ground (arith, less_text_trans s t u)

-- the comparison of two integers is that of two sums of their parts
abbrev by_sums : ℕ → ℕ → Bool → Bool
by_sums a b by_id = if not (a == b) then ltb b a else by_id

pub descending_asym :
    (a b : ℤ) (s t : String)
    → descending b a (less_text t s) ≡ true
    → descending a b (less_text s t) ≡ false
descending_asym a b s t h = later_asym (pos_part a + neg_part b) (pos_part b + neg_part a) s t h

sums_trans :
    (p m q n r l : ℕ) (s t u : String)
    → by_sums (q + m) (p + n) (less_text t s) ≡ false
    → by_sums (r + n) (q + l) (less_text u t) ≡ false
    → by_sums (r + m) (p + l) (less_text u s) ≡ false
sums_trans p m q n r l s t u h k = ground (arith, less_text_trans s t u)

pub descending_trans :
    (a b c : ℤ) (s t u : String)
    → descending b a (less_text t s) ≡ false
    → descending c b (less_text u t) ≡ false
    → descending c a (less_text u s) ≡ false
descending_trans a b c s t u h k =
    sums_trans (pos_part a) (neg_part a) (pos_part b) (neg_part b) (pos_part c) (neg_part c) s t u h
      k
