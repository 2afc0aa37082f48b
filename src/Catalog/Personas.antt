-- ===== src/Catalog/Personas.antt =====
-- internal/store/memstore/memstore.go: the personas (assistants) of each tenant.
use orbit_control.Prelude.{
  ℕ, String, ◌≡◌, ◌≢◌, ◌↔◌, ◌⊎◌, ◌||◌, Option, none, some, List, lookup, insert, str_eq,
  if◌then◌else◌, arith, eq_iff, Occurs, lookup-insert_self,
}
use orbit_control.Prelude.Sort.{Ordered}
use orbit_control.Outcome.{not_found, storage, Result, ok, err}
use orbit_control.Catalog.{PersonaRecord, Row, Store, for_tenant}
use orbit_control.Catalog.Rows.{listing, newer, shown, listing-Ordered, listing-insert}

abbrev pub created : PersonaRecord → ℕ
created p = p.created_at

abbrev pub id_of : PersonaRecord → String
id_of p = p.id

pub list_personas : Store → String → Result (List PersonaRecord)
list_personas s tenant_id = for_tenant tenant_id (ok (listing created id_of tenant_id s.personas))

create_new : Store → String → PersonaRecord → Option (Row PersonaRecord) → Store × Result (Unit {0})
create_new s tenant_id p (some row) = (s, err storage)
create_new s tenant_id p none = (
  record s { personas = insert p.id (record { tenant_id = tenant_id; rec = p }) s.personas },
  ok tt,
)

unfoldable pub create_persona : Store → String → PersonaRecord → Store × Result (Unit {0})
unfolding create_new
create_persona s tenant_id p =
    if str_eq tenant_id "" || str_eq p.id ""
    then (s, err not_found)
    else create_new s tenant_id p (lookup p.id s.personas)

-- A listing is in order: the newest persona first, and personas of the same time by their ids.
pub list_personas-newest_first :
    (s : Store) (tenant_id : String)
    → Ordered (newer created id_of) (shown (list_personas s tenant_id))
unfolding list_personas
list_personas-newest_first s tenant_id =
    ground (arith, eq_iff tenant_id "", listing-Ordered created id_of tenant_id s.personas)

-- Tenants are kept apart: a persona with an id that is new and not empty, created for a tenant with
-- a name, stands from then on in the listing of that tenant, in the listing of no other, and every
-- other persona is listed as before, for every tenant with a name.
pub create_persona-isolated :
    (s : Store) (owner reader : String) (p x : PersonaRecord)
    → owner ≢ ""
    → reader ≢ ""
    → p.id ≢ ""
    → lookup p.id s.personas ≡ none
    → Occurs x (shown (list_personas (create_persona s owner p).0 reader))
      ↔ (((owner ≡ reader) × (x ≡ p)) ⊎ Occurs x (shown (list_personas s reader)))
unfolding list_personas create_persona
create_persona-isolated s owner reader p x h k i n = ground (
  arith,
  eq_iff owner "",
  eq_iff reader "",
  eq_iff p.id "",
  listing-insert created id_of p owner reader p.id s.personas x n,
)

create_new-ok :
    (s : Store) (owner : String) (p : PersonaRecord) (before : Option (Row PersonaRecord))
    → (create_new s owner p before).1 ≡ ok tt
    → lookup p.id (create_new s owner p before).0.personas
      ≡ some (record { tenant_id = owner; rec = p })
unfolding create_new
create_new-ok s owner p none h =
    lookup-insert_self p.id (record { tenant_id = owner; rec = p }) s.personas
create_new-ok s owner p (some row) h = ground arith

create_persona-ok :
    (s : Store) (owner : String) (p : PersonaRecord)
    → (create_persona s owner p).1 ≡ ok tt
    → (p.id ≢ "")
      × (lookup p.id (create_persona s owner p).0.personas
          ≡ some (record { tenant_id = owner; rec = p }))
unfolding create_persona
create_persona-ok s owner p h =
    ground
      (arith, eq_iff owner "", eq_iff p.id "", create_new-ok s owner p (lookup p.id s.personas))

create_persona-taken :
    (s : Store) (owner : String) (p : PersonaRecord) (row : Row PersonaRecord)
    → owner ≢ ""
    → p.id ≢ ""
    → lookup p.id s.personas ≡ some row
    → create_persona s owner p ≡ (s, err storage)
unfolding create_persona
create_persona-taken s owner p row h k t = ground (arith, eq_iff owner "", eq_iff p.id "")

-- An id is given out once: after a persona is created, creating one with its id again, for whatever
-- tenant that has a name, is refused and changes nothing.
pub create_persona-once :
    (s : Store) (owner other : String) (p q : PersonaRecord)
    → (create_persona s owner p).1 ≡ ok tt
    → other ≢ ""
    → q.id ≡ p.id
    → create_persona (create_persona s owner p).0 other q
      ≡ ((create_persona s owner p).0, err storage)
create_persona-once s owner other p q h k i =
    let (named, there) = create_persona-ok s owner p h in
    create_persona-taken (create_persona s owner p).0 other q
      (record { tenant_id = owner; rec = p }) k (rw i named) (rw i there)
