-- ===== src/App/Connectors/Snapshots.antt =====
-- What a task keeps of its connectors.
use mathlib.Core.Path.{subst}
use orbit_control.Prelude.{
  ℕ, ◌+◌, String, ◌≡◌, refl, some, List, [], ◌∷◌, Assoc, lookup, Option-cases, inl, inr, arith,
}
use orbit_control.Outcome.{Result, ok, bind-ok, ok_inj}
use orbit_control.Value.{Fields}
use orbit_control.Catalog.{McpConnectorRecord}
use orbit_control.App.Connectors.{connector_snapshot, snapshots_from, snapshots_for}

-- one snapshot for each id, in order: that of the connector that the tenant has under the id
abbrev pub Snapshots : Result (Assoc McpConnectorRecord) → List String → List Fields → Type 0
Snapshots connectors [] [] = Unit
Snapshots connectors [] (f ∷ fs) = ⊥
Snapshots connectors (id ∷ ids) [] = ⊥
Snapshots connectors (id ∷ ids) (f ∷ fs) =
    ((by_id : Assoc McpConnectorRecord) × (rec : McpConnectorRecord) × (connectors ≡ ok by_id)
      × (lookup id by_id ≡ some rec)
      × (f ≡ connector_snapshot rec))
    × Snapshots connectors ids fs

snapshots_from-Snapshots :
    (by_id : Assoc McpConnectorRecord) (index : ℕ) (ids : List String) (fs : List Fields)
    → snapshots_from by_id index ids ≡ ok fs
    → Snapshots (ok by_id) ids fs
unfolding snapshots_from
snapshots_from-Snapshots by_id index [] fs h = subst (Snapshots (ok by_id) []) (ok_inj [] fs h) tt
snapshots_from-Snapshots by_id index (id ∷ ids) fs h = elim (Option-cases (lookup id by_id)) [
  | inl p ↦ ground (arith, p)
  | inr (rec, p) ↦
      let (rest, h₁, h₂) =
        bind-ok (snapshots_from by_id (index + 1) ids)
          (λ found. ok (connector_snapshot rec ∷ found)) {found = fs}
          (rw (p, snapshots_from) at h) in
      subst (Snapshots (ok by_id) (id ∷ ids)) (ok_inj _ fs h₂)
        ((by_id, rec, refl, p, refl), snapshots_from-Snapshots by_id (index + 1) ids rest h₁)
]

pub snapshots_for-Snapshots :
    (by_id : Assoc McpConnectorRecord) (ids : List String) (fs : List Fields)
    → snapshots_for by_id ids ≡ ok fs
    → Snapshots (ok by_id) ids fs
unfolding snapshots_for
snapshots_for-Snapshots by_id ids fs h = snapshots_from-Snapshots by_id 0 ids fs h
