-- ===== src/Service/Log/Admission.antt =====
-- The two steps in which an event is admitted.
use orbit_control.Prelude.{ℕ, ◌≡◌, ◌⊎◌, inl, inr, none, Bool-cases, Option-cases, str_eq}
use orbit_control.Lru.{Lru}
use orbit_control.Service.{Event, Service}
use orbit_control.Service.Append.{event_key}
use orbit_control.Service.Log.{with_tenant, with_versions, admit_entity, admit_seen, admit}

module _ (L : Lru (Unit {0})) where
  open L use {Cache}

  -- Admission in two steps: the table of seen events, then the entity's version.
  pub admit_by_entity :
      (s : Service Cache) (given : Event) (now : ℕ)
      → let e = with_tenant L s given in
        let s' = with_versions L s e.task_id in
        ((seen : Cache) × (admit L s given now ≡ (record s' { seen_events = seen }, none)))
        ⊎ ((seen : Cache) × (admit L s given now
              ≡ admit_entity L (record s' { seen_events = seen }) e now))
  admit_by_entity s given now =
      let e = with_tenant L s given in
      let s' = with_versions L s e.task_id in
      let key = event_key e.task_id e.event_id in
      elim (Bool-cases (str_eq e.event_id "")) [
        | inl p ↦ inr (s'.seen_events, unfold admit in rw p)
        | inr p ↦ elim (Option-cases (L.peek s'.seen_events key)) [
          | inl q ↦
              inr (L.add (L.touch s'.seen_events key) key tt, unfold admit in rw (p, q, admit_seen))
          | inr (u, q) ↦ inl (L.touch s'.seen_events key, unfold admit in rw (p, q, admit_seen))
        ]
      ]
