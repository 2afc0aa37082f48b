-- ===== src/Service/Tasks/Owned.antt =====
-- A caller meets only its own tasks.
use orbit_control.Prelude.{
  String, true, ◌≡◌, refl, sym, ◌∙◌, ◌↔◌, none, some, List, [], ◌∷◌, arith, All, eq_iff, lookup,
  Assoc, Occurs, Bool-cases, Option-cases, ◌⊎◌, inl, inr,
}
use orbit_control.Outcome.{not_found, ok, err}
use orbit_control.Service.{Principal, Task, Service}
use orbit_control.Service.Tasks.{clone_task, owned_by, get, owned, list}

abbrev pub OwnedBy : Principal → Task → Type 0
OwnedBy p t = (t.tenant_id ≡ p.tenant_id) × (t.created_by ≡ p.user_id)

owned_by_iff : (p : Principal) (t : Task) → (owned_by p t ≡ true) ↔ OwnedBy p t
unfolding owned_by
owned_by_iff p t = ground (arith, eq_iff t.tenant_id p.tenant_id, eq_iff t.created_by p.user_id)

-- Without a store, a read answers a task exactly when it is there and the caller's, and "not found"
-- in every other case: a task that is not there and one of someone else's look the same.
pub get-owned :
    {Seen : Type 0} (s : Service Seen) (p : Principal) (id : String)
    → ((t : Task) × (lookup id s.tasks ≡ some t)
        × OwnedBy p t
        × ((get none s p id).1 ≡ ok (clone_task t)))
      ⊎ (((t : Task) → lookup id s.tasks ≡ some t → ¬ OwnedBy p t)
          × ((get none s p id).1 ≡ err not_found))
unfolding get
get-owned s p id = elim (Option-cases (lookup id s.tasks)) [
  | inl q ↦ inr ((λ t h. absurd (cc (sym q ∙ h))), rw q)
  | inr (t, q) ↦ elim (Bool-cases (owned_by p t)) [
    | inl o ↦ inl (t, q, (owned_by_iff p t).0 o, rw q (rw o))
    | inr o ↦ inr ((λ u h w. ground (arith, owned_by_iff p t, owned_by_iff p u)), rw q (rw o))
  ]
]

owned-All : (p : Principal) (ts : Assoc Task) → All (OwnedBy p) (owned p ts)
unfolding owned clone_task
owned-All p [] = tt
owned-All p ((id, t) ∷ ts) = ground (arith, owned-All p ts, owned_by_iff p t)

owned-Occurs :
    (p : Principal) (id : String) (t : Task) (ts : Assoc Task)
    → lookup id ts ≡ some t
    → OwnedBy p t
    → Occurs (clone_task t) (owned p ts)
unfolding owned lookup
owned-Occurs p id t [] h o = cc
owned-Occurs p id t ((j, u) ∷ ts) h o =
    ground (arith, owned-Occurs p id t ts, owned_by_iff p t, owned_by_iff p u)

-- Without a store, a listing holds the caller's tasks only, and every one of them.
pub list-owned :
    {Seen : Type 0} (s : Service Seen) (p : Principal)
    → (ts : List Task) × ((list none s p).1 ≡ ok ts)
      × All (OwnedBy p) ts
      × ((id : String) (t : Task)
          → lookup id s.tasks ≡ some t
          → OwnedBy p t
          → Occurs (clone_task t) ts)
unfolding list
list-owned s p =
    (owned p s.tasks, refl, owned-All p s.tasks, λ id t h o. owned-Occurs p id t s.tasks h o)
