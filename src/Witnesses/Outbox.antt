-- ===== src/Witnesses/Outbox.antt =====
-- Runs of the projector.
use orbit_control.Prelude.{
  ℕ, true, ◌≡◌, ne_of_str_eq, refl, none, some, List, [], ◌∷◌, map, lookup, insert, arith,
}
use orbit_control.Outcome.{storage, Result, ok, err}
use orbit_control.Lru.{newest, refresh}
use orbit_control.Value.{object, field, number, text, end, Fields, get}
use orbit_control.Service.{Event}
use orbit_control.Service.Log.{append_event_raw}
use orbit_control.Projector.{OutboxRecord, event_of, project}
use orbit_control.Projector.Batch.{row_id, Settled, batch, project-Settled, project-lost}
use orbit_control.Witnesses.Samples.{seen, no_time, service}
use orbit_control.Prelude.Int.{pos}

abbrev refuse : Event → Result Event
refuse e = err storage

abbrev accept : Event → Result Event
accept e = ok e

abbrev clock : OutboxRecord → ℕ × ℕ
clock row = (10, 11)

abbrev marks : List ℕ → Result (Unit {0})
marks ids = ok tt

abbrev node_fields : Fields
node_fields =
    field "kind" (text "node") (field "id" (text "n1") (field "version" (number (pos 4)) end))

abbrev row : OutboxRecord
row = record {
  id = 8;
  tenant_id = "a";
  task_id = "t1";
  event_id = "e1";
  body = some (field "type" (text "node.updated") (field "entity" (object node_fields) end));
}

abbrev torn : OutboxRecord
torn = record row { id = 9; body = none }

both_marked :
    (project no_time seen (some accept) clock (ok (row ∷ torn ∷ [])) marks service).1.marked
    ≡ some (8 ∷ 9 ∷ [])
unfolding project event_of get append_event_raw lookup insert newest refresh
both_marked = refl

project-Settled_example :
    let r = project no_time seen (some accept) clock (ok (row ∷ torn ∷ [])) marks service in
    (8 ∷ 9 ∷ [] ≡ map row_id (row ∷ torn ∷ []))
    × Settled no_time seen (some accept) clock service (row ∷ torn ∷ []) r.1.dropped r.0
project-Settled_example =
    project-Settled no_time seen (some accept) clock (row ∷ torn ∷ []) marks service (8 ∷ 9 ∷ [])
      both_marked

abbrev node : Event
node = record {
  seq = 0;
  after_seq = 0;
  event_id = "e1";
  task_id = "t1";
  tenant_id = "a";
  type = "node.updated";
  source = "workflow";
  payload = none;
  occurred = 0;
  durable = true;
  entity_kind = "node";
  entity_id = "n1";
  entity_version = 4;
  entity = none;
}

decoded : event_of no_time row ≡ some node
unfolding event_of get
decoded = refl

unmarked : (batch no_time seen marks row (some refuse) clock service).1.marked ≡ none
unfolding project event_of get append_event_raw lookup insert newest refresh
unmarked = refl

project-lost_example :
    let retry =
      batch no_time seen marks row
        (some accept)
        clock
        (batch no_time seen marks row (some refuse) clock service).0 in
    (retry.1.marked ≡ some (8 ∷ [])) × (retry.1.stored ≡ []) × (retry.1.dropped ≡ [])
project-lost_example =
    project-lost no_time seen marks row refuse (some accept) clock clock service node decoded
      (ne_of_str_eq "node" "" refl) (ne_of_str_eq "n1" "" refl) (omega arith) unmarked
