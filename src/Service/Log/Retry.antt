-- ===== src/Service/Log/Retry.antt =====
-- What a retry of an event does after the projection store refused it.
use orbit_control.Prelude.{
  ℕ, ◌≤◌, ◌<◌, String, Bool, true, false, ◌≡◌, ◌≢◌, refl, Option, none, some, arith, eq_iff, lookup,
  insert, lookup-insert_self, [], inl, inr, sym, ◌∙◌, ap,
}
use orbit_control.Outcome.{Error, Result, ok, err}
use orbit_control.Lru.{Lru}
use orbit_control.Value.{Value}
use orbit_control.Service.{Event, Service, or_empty}
use orbit_control.Service.Append.{entity_key}
use orbit_control.Service.Log.Admission.{admit_by_entity}
use orbit_control.Service.Log.{
  with_tenant, with_versions, version_of, admit_entity, admit, forget_event, after_store,
  store_event, finish, append_event_raw,
}

module _ (L : Lru (Unit {0})) where
  open L use {Cache}

  module _ (s : Service Cache) (e : Event) where
    kind-with_tenant : (with_tenant L s e).entity_kind ≡ e.entity_kind
    unfolding with_tenant
    kind-with_tenant = ground arith

    id-with_tenant : (with_tenant L s e).entity_id ≡ e.entity_id
    unfolding with_tenant
    id-with_tenant = ground arith

    version-with_tenant : (with_tenant L s e).entity_version ≡ e.entity_version
    unfolding with_tenant
    version-with_tenant = ground arith

    task-with_tenant : (with_tenant L s e).task_id ≡ e.task_id
    unfolding with_tenant
    task-with_tenant = ground arith

    version_of-with_versions : version_of L (with_versions L s e.task_id) e ≡ version_of L s e
    unfolding version_of with_versions lookup
    version_of-with_versions = ground (arith, lookup-insert_self e.task_id [] s.entity_version)

  version_of-seen :
      (t : Service Cache) (e : Event) (seen : Cache)
      → version_of L (record t { seen_events = seen }) e ≡ version_of L t e
  unfolding version_of
  version_of-seen t e seen = refl

  version_of-with_tenant :
      (s t : Service Cache) (e : Event) → version_of L t (with_tenant L s e) ≡ version_of L t e
  unfolding version_of
  version_of-with_tenant s t e = cc (kind-with_tenant s e, id-with_tenant s e, task-with_tenant s e)

  module _ (s : Service Cache) (e : Event) (now : ℕ) (k : e.entity_kind ≢ "") (i : e.entity_id ≢ "")
      (v : 0 < e.entity_version) where
    version_of-admit_entity :
        {e' : Event}
        → (admit_entity L s e now).1 ≡ some e'
        → version_of L (admit_entity L s e now).0 e ≡ e.entity_version
    unfolding admit_entity version_of
    version_of-admit_entity h = ground (
      arith,
      eq_iff e.entity_kind "",
      eq_iff e.entity_id "",
      lookup-insert_self e.task_id
          (insert (entity_key e.entity_kind e.entity_id) e.entity_version
            (or_empty (lookup e.task_id s.entity_version)))
          s.entity_version,
      lookup-insert_self (entity_key e.entity_kind e.entity_id) e.entity_version
          (or_empty (lookup e.task_id s.entity_version)),
    )

    admit_entity_behind : e.entity_version ≤ version_of L s e → admit_entity L s e now ≡ (s, none)
    unfolding admit_entity
    admit_entity_behind h = ground (arith, eq_iff e.entity_kind "", eq_iff e.entity_id "")

  module _ (s : Service Cache) (e : Event) (now : ℕ) (k : e.entity_kind ≢ "") (i : e.entity_id ≢ "")
      (v : 0 < e.entity_version) where
    -- the event with its tenant filled in
    abbrev full : Event
    full = with_tenant L s e

    abbrev ready : Cache → Service Cache
    ready seen = record (with_versions L s full.task_id) { seen_events = seen }

    full_kind : full.entity_kind ≢ ""
    full_kind h = k (sym (kind-with_tenant s e) ∙ h)

    full_id : full.entity_id ≢ ""
    full_id h = i (sym (id-with_tenant s e) ∙ h)

    full_version : 0 < full.entity_version
    full_version = omega (arith, version-with_tenant s e)

    -- Admission has moved the entity to the event's version.
    version_of-admit :
        {e' : Event}
        → (admit L s e now).1 ≡ some e'
        → version_of L (admit L s e now).0 e ≡ e.entity_version
    version_of-admit h = elim (admit_by_entity L s e now) [
      | inl (seen, p) ↦ absurd (cc (rw p at h))
      | inr (seen, p) ↦
          let q =
            version_of-admit_entity (ready seen) full now full_kind full_id full_version
              (sym (ap (λ (r : Service Cache × Option Event). r.1) p) ∙ h) in
          rw p (sym (version_of-with_tenant s _ e) ∙ q ∙ version-with_tenant s e)
    ]

    version_of-ready : (seen : Cache) → version_of L (ready seen) full ≡ version_of L s e
    version_of-ready seen =
        version_of-seen (with_versions L s full.task_id) full seen
        ∙ version_of-with_versions s full
        ∙ version_of-with_tenant s s e

    -- An event at or behind its entity's version is not admitted.
    admit_behind : e.entity_version ≤ version_of L s e → (admit L s e now).1 ≡ none
    admit_behind h = elim (admit_by_entity L s e now) [
      | inl (seen, p) ↦ rw p refl
      | inr (seen, p) ↦ rw p (
          ap (λ (r : Service Cache × Option Event). r.1)
            (admit_entity_behind (ready seen) full now full_kind full_id full_version
              (omega (arith, version-with_tenant s e, version_of-ready seen))))
    ]

  version_of-forget_event :
      (t : Service Cache) (e : Event) (task_id event_id : String)
      → version_of L (forget_event L t task_id event_id) e ≡ version_of L t e
  unfolding version_of forget_event
  version_of-forget_event t e task_id event_id = ground arith

  module _ (time_of : Value → Option ℕ) where
    after_store_refused :
        (r : Result Event) (s : Service Cache) (e e' : Event) (now : ℕ) {x : Error}
        → (after_store L time_of r s e' now).1 ≡ err x
        → version_of L (after_store L time_of r s e' now).0 e ≡ version_of L s e
    unfolding after_store
    after_store_refused (ok _) s e e' now h = cc
    after_store_refused (err _) s e e' now h = version_of-forget_event s e e'.task_id e'.event_id

    store_event_refused :
        (store : Option (Event → Result Event)) (durable : Bool) (s : Service Cache) (e e' : Event)
        (now : ℕ) {x : Error}
        → (store_event L time_of store durable s e' now).1 ≡ err x
        → version_of L (store_event L time_of store durable s e' now).0 e ≡ version_of L s e
    unfolding store_event
    store_event_refused (some append) true s e e' now h =
        after_store_refused (append e') s e e' now h
    store_event_refused (some append) false s e e' now h = cc
    store_event_refused none durable s e e' now h = cc

    -- A refusal comes from the store, and leaves the entity's version where admission put it.
    finish_refused :
        (store : Option (Event → Result Event)) (p : Service Cache × Option Event) (e : Event)
        (now : ℕ) {x : Error}
        → (finish L time_of store p now).1 ≡ err x
        → (e' : Event) × (p.1 ≡ some e')
          × (version_of L (finish L time_of store p now).0 e ≡ version_of L p.0 e)
    unfolding finish
    finish_refused store (s, none) e now h = cc
    finish_refused store (s, some e') e now h =
        (e', refl, store_event_refused store e'.durable s e e' now h)

    finish-none :
        (store : Option (Event → Result Event)) (p : Service Cache × Option Event) (now : ℕ)
        → p.1 ≡ none
        → ((finish L time_of store p now).1 ≡ ok tt) × ((finish L time_of store p now).2 ≡ none)
    unfolding finish
    finish-none store (s, none) now h = (refl, refl)
    finish-none store (s, some e) now h = cc

    append_lem :
        (store : Option (Event → Result Event)) (s : Service Cache) (e : Event) (now later : ℕ)
        → append_event_raw L time_of store s e now later
          ≡ finish L time_of store (admit L s e now) later
    unfolding append_event_raw
    append_lem store s e now later = refl

    -- An event of an entity's owner, with a version above 0, whose write the projection store
    -- refused is never written by a retry: the retry reports success without calling the store,
    -- whatever the store would answer.
    pub refused_then_dropped :
        (s : Service Cache) (e : Event) (first : Event → Result Event)
        (second : Option (Event → Result Event)) (t₁ t₂ t₃ t₄ : ℕ) {x : Error}
        → e.entity_kind ≢ ""
        → e.entity_id ≢ ""
        → 0 < e.entity_version
        → (append_event_raw L time_of (some first) s e t₁ t₂).1 ≡ err x
        → let s' = (append_event_raw L time_of (some first) s e t₁ t₂).0 in
          let retry = append_event_raw L time_of second s' e t₃ t₄ in
          (retry.1 ≡ ok tt) × (retry.2 ≡ none)
    refused_then_dropped s e first second t₁ t₂ t₃ t₄ k i v h =
        let r = append_lem (some first) s e t₁ t₂ in
        let (e', admitted, kept) = finish_refused (some first) (admit L s e t₁) e t₂ (rw r at h) in
        let moved = version_of-admit s e t₁ k i v admitted in
        rw r (
          rw (append_lem second (finish L time_of (some first) (admit L s e t₁) t₂).0 e t₃ t₄)
            (finish-none second _ t₄ (admit_behind _ e t₃ k i v (omega (arith, kept, moved)))))
