-- ===== src/Service/Log.antt =====
-- internal/task/events.go: `appendEventRaw` over the service's state. What the projection store
-- answers in the call is an argument, `none` where the service has no store; the third part of the
-- result is the event that was handed to the store, if one was.
mod Admission
pub mod Delivered
pub mod Numbered
pub mod Order
pub mod Retry
use orbit_control.Prelude.{
  ℕ, ◌+◌, String, Bool, true, false, not, ◌&&◌, ◌||◌, Option, none, some, List, [], ◌∷◌, ◌++◌, ltb,
  leb, ◌==◌, str_eq, if◌then◌else◌, Assoc, lookup, insert,
}
use orbit_control.Outcome.{Result, ok, err}
use orbit_control.Lru.{Lru}
use orbit_control.Value.{Value, Fields}
use orbit_control.Service.{
  Task, Event, Entity, Subscriber, Service, ArtifactManifest, or_zero, or_empty,
}
use orbit_control.Service.Manifests.{decode_manifest, lift_omitted}
use orbit_control.Service.Append.{u64, event_key, entity_key, max_of, apply_event, trim, publish}

abbrev pub tenant_of : Option Task → String → String
tenant_of none given = given
tenant_of (some t) given = t.tenant_id

module _ (L : Lru (Unit {0})) where
  open L use {Cache, peek, touch, add, drop}

  -- `if event.TenantID == ""`
  pub with_tenant : Service Cache → Event → Event
  with_tenant s e =
      if str_eq e.tenant_id ""
      then record e { tenant_id = tenant_of (lookup e.task_id s.tasks) e.tenant_id }
      else e

  -- `if s.entityVersion[event.TaskID] == nil`
  pub with_versions : Service Cache → String → Service Cache
  with_versions s task_id = elim (lookup task_id s.entity_version) [
    | none ↦ record s { entity_version = insert task_id [] s.entity_version }
    | some _ ↦ s
  ]

  pub version_of : Service Cache → Event → ℕ
  version_of s e =
      or_zero (
        lookup (entity_key e.entity_kind e.entity_id)
          (or_empty (lookup e.task_id s.entity_version)))

  has_entity : Event → Bool
  has_entity e = not (str_eq e.entity_kind "") && not (str_eq e.entity_id "")

  set_version : Service Cache → Event → Service Cache
  set_version s e =
      if ltb 0 e.entity_version
      then (record s {
        entity_version =
            insert e.task_id
              (insert (entity_key e.entity_kind e.entity_id) e.entity_version
                (or_empty (lookup e.task_id s.entity_version)))
              s.entity_version;
      })
      else s

  with_entity : ℕ → Event → Event
  unfolding max_of
  with_entity current e = record e {
    entity = some (record {
      kind = e.entity_kind;
      id = e.entity_id;
      version = max_of e.entity_version current;
    });
  }

  with_time : ℕ → Event → Event
  with_time now e = if e.occurred == 0 then record e { occurred = now } else e

  -- The number of a durable event, or the durable event that an ephemeral one follows.
  number_event : Service Cache → Event → ℕ → Service Cache × Event
  unfolding with_time
  number_event s e now =
      let last = or_zero (lookup e.task_id s.next_seq) in
      if e.durable
      then (
        record s { next_seq = insert e.task_id (u64 (last + 1)) s.next_seq },
        with_time now (record e { seq = u64 (last + 1) }),
      )
      else (s, with_time now (record e { after_seq = last }))

  pub admit_entity : Service Cache → Event → ℕ → Service Cache × Option Event
  unfolding version_of has_entity set_version with_entity number_event
  admit_entity s e now =
      if has_entity e
      then (if ltb 0 e.entity_version && leb e.entity_version (version_of s e)
          then (s, none)
          else let (s', e') = number_event (set_version s e) (with_entity (version_of s e) e) now in
            (s', some e'))
      else let (s', e') = number_event s e now in (s', some e')

  admit_seen : Option (Unit {0}) → Service Cache → Event → ℕ → Service Cache × Option Event
  unfolding admit_entity
  admit_seen (some _) s e now =
      (record s { seen_events = touch s.seen_events (event_key e.task_id e.event_id) }, none)
  admit_seen none s e now =
      let looked = touch s.seen_events (event_key e.task_id e.event_id) in
      admit_entity (record s { seen_events = add looked (event_key e.task_id e.event_id) tt }) e now

  -- The first region: `none` for an event that is a duplicate or behind its entity's version.
  pub admit : Service Cache → Event → ℕ → Service Cache × Option Event
  unfolding with_tenant with_versions admit_seen
  admit s given now =
      let e = with_tenant s given in
      let s' = with_versions s e.task_id in
      if str_eq e.event_id ""
      then admit_entity s' e now
      else admit_seen (peek s'.seen_events (event_key e.task_id e.event_id)) s' e now

  pub forget_event : Service Cache → String → String → Service Cache
  forget_event s task_id event_id =
      if str_eq event_id ""
      then s
      else record s { seen_events = drop s.seen_events (event_key task_id event_id) }

  update_task : Service Cache → Event → Assoc Task
  update_task s e = elim (lookup e.task_id s.tasks) [
    | none ↦ s.tasks
    | some t ↦ insert e.task_id (apply_event e t) s.tasks
  ]

  raise_seq : Service Cache → Event → Assoc ℕ
  raise_seq s e =
      if ltb (or_zero (lookup e.task_id s.next_seq)) e.seq
      then insert e.task_id e.seq s.next_seq
      else s.next_seq

  publish_all : Service Cache → Event → Assoc (List Subscriber)
  publish_all s e = elim (lookup e.task_id s.subs) [
    | none ↦ s.subs
    | some subs ↦ insert e.task_id (publish e subs) s.subs
  ]

  module _ (time_of : Value → Option ℕ) where
    keep_decoded : Event → Option ArtifactManifest → Assoc ArtifactManifest → Assoc ArtifactManifest
    keep_decoded e none ms = ms
    keep_decoded e (some m) ms =
        let lifted = lift_omitted (record m { task_id = e.task_id }) in
        let dated =
          if lifted.created_at == 0 then record lifted { created_at = e.occurred } else lifted in
        if str_eq m.manifest_id "" then ms else insert m.manifest_id dated ms

    decoded_payload : Option Fields → Option ArtifactManifest
    decoded_payload none = none
    decoded_payload (some payload) = decode_manifest time_of payload

    keep_manifest : Event → Assoc ArtifactManifest → Assoc ArtifactManifest
    unfolding keep_decoded decoded_payload
    keep_manifest e ms =
        if str_eq e.type "artifact.manifest_created"
        then keep_decoded e (decoded_payload e.payload) ms
        else ms

    -- The second and the third region: the task, the buffer, the manifest and the subscribers.
    pub record_event : Service Cache → Event → ℕ → Service Cache
    unfolding update_task raise_seq keep_manifest publish_all
    record_event s e now = record s {
      next_seq = raise_seq s e;
      tasks = update_task s e;
      events =
          insert e.task_id (trim s.max_events now (or_empty (lookup e.task_id s.events) ++ e ∷ []))
            s.events;
      manifests = keep_manifest e s.manifests;
      subs = publish_all s e;
    }

    -- `if projected.Seq > 0 { event.Seq = projected.Seq }`
    abbrev pub renumbered : Event → Event → Event
    renumbered projected e = if ltb 0 projected.seq then record e { seq = projected.seq } else e

    after_store :
        Result Event → Service Cache → Event → ℕ → Service Cache × Result (Unit {0}) × Option Event
    unfolding forget_event record_event
    after_store (err x) s e now = (forget_event s e.task_id e.event_id, err x, some e)
    after_store (ok projected) s e now =
        (record_event s (renumbered projected e) now, ok tt, some e)

    store_event :
        Option (Event → Result Event)
        → Bool
        → Service Cache
        → Event
        → ℕ
        → Service Cache × Result (Unit {0}) × Option Event
    unfolding after_store
    store_event (some append) true s e now = after_store (append e) s e now
    store_event _ _ s e now = (record_event s e now, ok tt, none)

    finish :
        Option (Event → Result Event)
        → Service Cache × Option Event
        → ℕ
        → Service Cache × Result (Unit {0}) × Option Event
    unfolding store_event
    finish store (s, none) now = (s, ok tt, none)
    finish store (s, some e) now = store_event store e.durable s e now

    unfoldable pub append_event_raw :
        Option (Event → Result Event)
        → Service Cache
        → Event
        → ℕ
        → ℕ
        → Service Cache × Result (Unit {0}) × Option Event
    unfolding admit finish
    append_event_raw store s e now later = finish store (admit s e now) later
