-- ===== src/Catalog/Rows.antt =====
-- internal/store/memstore/memstore.go: the loop over a map of owned records and the order of a
-- listing, which personas and connectors share.
use orbit_control.Prelude.{
  ℕ, String, Bool, true, false, ◌≡◌, ◌↔◌, ◌⊎◌, none, List, [], ◌∷◌, Assoc, lookup, insert, ltb,
  ◌==◌, str_eq, if◌then◌else◌, arith, eq_iff, Occurs,
}
use orbit_control.Prelude.Sort.{sort_by, sort_by-Occurs, Ordered, sort_by-Ordered}
use orbit_control.Text.Order.{less_text, less_text_asym, less_text_trans}
use orbit_control.Outcome.{Result, ok, err}
use orbit_control.Catalog.{Row}

-- what a listing answers, nothing where it is refused
abbrev pub shown : {A : Type 0} → Result (List A) → List A
shown (ok xs) = xs
shown (err e) = []

module _ {A : Type 0} where
  -- The loop over the map: the records of one tenant.
  pub rows_of : String → Assoc (Row A) → List A
  rows_of tenant_id [] = []
  rows_of tenant_id ((key, row) ∷ rows) =
      let rest = rows_of tenant_id rows in
      if str_eq row.tenant_id tenant_id then row.rec ∷ rest else rest

  -- A row that is new in the map stands in its tenant's loop, and in no other.
  rows_of-insert :
      (p : A) (owner reader key : String) (rows : Assoc (Row A)) (x : A)
      → lookup key rows ≡ none
      → Occurs x (rows_of reader (insert key (record { tenant_id = owner; rec = p }) rows))
        ↔ (((owner ≡ reader) × (x ≡ p)) ⊎ Occurs x (rows_of reader rows))
  unfolding rows_of lookup insert
  rows_of-insert p owner reader key [] x h = ground (arith, eq_iff owner reader)
  rows_of-insert p owner reader key ((j, row) ∷ rows) x h = ground (
    arith,
    eq_iff owner reader,
    eq_iff j key,
    eq_iff row.tenant_id reader,
    rows_of-insert p owner reader key rows x,
  )

  module _ (created_at : A → ℕ) (id : A → String) where
    -- newest first, then by id
    pub newer : A → A → Bool
    newer a b =
        if created_at a == created_at b
        then less_text (id a) (id b)
        else ltb (created_at b) (created_at a)

    pub listing : String → Assoc (Row A) → List A
    listing tenant_id rows = sort_by newer (rows_of tenant_id rows)

    newer_asym : (x y : A) → newer y x ≡ true → newer x y ≡ false
    unfolding newer
    newer_asym x y h = ground (arith, less_text_asym (id y) (id x))

    newer_trans : (x y z : A) → newer y x ≡ false → newer z y ≡ false → newer z x ≡ false
    unfolding newer
    newer_trans x y z h k = ground (arith, less_text_trans (id x) (id y) (id z))

    pub listing-Ordered :
        (tenant_id : String) (rows : Assoc (Row A)) → Ordered newer (listing tenant_id rows)
    unfolding listing
    listing-Ordered tenant_id rows =
        sort_by-Ordered newer newer_asym newer_trans (rows_of tenant_id rows)

    pub listing-insert :
        (p : A) (owner reader key : String) (rows : Assoc (Row A)) (x : A)
        → lookup key rows ≡ none
        → Occurs x (listing reader (insert key (record { tenant_id = owner; rec = p }) rows))
          ↔ (((owner ≡ reader) × (x ≡ p)) ⊎ Occurs x (listing reader rows))
    unfolding listing
    listing-insert p owner reader key rows x h = ground (
      arith,
      sort_by-Occurs newer x (rows_of reader rows),
      sort_by-Occurs newer x
          (rows_of reader (insert key (record { tenant_id = owner; rec = p }) rows)),
      rows_of-insert p owner reader key rows x h,
    )
