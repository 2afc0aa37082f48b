-- ===== src/Service/Log/Numbered.antt =====
-- What admitting one event changes of the numbers of its task.
use orbit_control.Prelude.{
  ℕ, zero, suc, ◌+◌, String, Bool, true, false, ◌≡◌, sym, ap, ◌∙◌, inl, inr, Option, none, some,
  List, [], ◌∷◌, ◌++◌, map, arith, lookup, insert, if◌then◌else◌,
}
use mathlib.Core.List.{append-nil, map-append}
use native.Mathlib.Numerals.{add-one}
use orbit_control.Lru.{Lru}
use orbit_control.Service.{Event, Service, or_zero, or_empty}
use orbit_control.Service.Append.{u64, trim}
use orbit_control.Service.Append.Trim.{durable_of, durable_of-trim, durable_of-append}
use orbit_control.Service.Log.Admission.{admit_by_entity}
use orbit_control.Service.Log.{with_tenant, with_versions, admit_entity, admit}

-- 1, 2, …, n
abbrev pub one_to : ℕ → List ℕ
one_to zero = []
one_to (suc n) = one_to n ++ suc n ∷ []

abbrev pub seqs : List Event → List ℕ
seqs es = map (λ (e : Event). e.seq) (durable_of es)

module _ (L : Lru (Unit {0})) where
  open L use {Cache}

  -- The durable events kept for a task are numbered 1, 2, … with no gap, up to the last number given.
  abbrev pub Gapless : Service Cache → String → Type 0
  Gapless s id = seqs (or_empty (lookup id s.events)) ≡ one_to (or_zero (lookup id s.next_seq))

  -- What admitting an event changes of the numbers: nothing, or one more for a durable event.
  pub record Numbered (s s' : Service Cache) (e e' : Event) : Type 0 where
    pub task_same : e'.task_id ≡ e.task_id
    pub durable_same : e'.durable ≡ e.durable
    pub events_same : s'.events ≡ s.events
    pub max_same : s'.max_events ≡ s.max_events
    pub next : e.durable ≡ true → s'.next_seq ≡ insert e.task_id e'.seq s.next_seq
    pub given : e.durable ≡ true → e'.seq ≡ u64 (or_zero (lookup e.task_id s.next_seq) + 1)
    pub stay : e.durable ≡ false → s'.next_seq ≡ s.next_seq
    pub seq_same : e.durable ≡ false → e'.seq ≡ e.seq

  admit_entity-Numbered :
      (s : Service Cache) (e : Event) (now : ℕ) {e' : Event}
      → (admit_entity L s e now).1 ≡ some e'
      → Numbered s (admit_entity L s e now).0 e e'
  unfolding admit_entity
  admit_entity-Numbered s e now h = ground arith

  admit_entity-none :
      (s : Service Cache) (e : Event) (now : ℕ)
      → (admit_entity L s e now).1 ≡ none
      → (admit_entity L s e now).0 ≡ s
  unfolding admit_entity
  admit_entity-none s e now h = ground arith

  module _ (s : Service Cache) (e : Event) where
    events-with_versions : (with_versions L s e.task_id).events ≡ s.events
    unfolding with_versions
    events-with_versions = ground arith

    max-with_versions : (with_versions L s e.task_id).max_events ≡ s.max_events
    unfolding with_versions
    max-with_versions = ground arith

    next-with_versions : (with_versions L s e.task_id).next_seq ≡ s.next_seq
    unfolding with_versions
    next-with_versions = ground arith

    with_tenant_same :
        ((with_tenant L s e).task_id ≡ e.task_id)
        × ((with_tenant L s e).durable ≡ e.durable)
        × ((with_tenant L s e).seq ≡ e.seq)
    unfolding with_tenant
    with_tenant_same = ground arith

  pub admit-Numbered :
      (s : Service Cache) (e : Event) (now : ℕ) {e' : Event}
      → (admit L s e now).1 ≡ some e'
      → Numbered s (admit L s e now).0 e e'
  admit-Numbered s e now {e'} h = elim (admit_by_entity L s e now) [
    | inl (seen, p) ↦ absurd (cc (rw p at h))
    | inr (seen, p) ↦
        let full = with_tenant L s e in
        let t = record (with_versions L s full.task_id) { seen_events = seen } in
        let n : Numbered t (admit_entity L t full now).0 full e' =
          admit_entity-Numbered t full now
            (sym (ap (λ (r : Service Cache × Option Event). r.1) p) ∙ h) in
        rw p (
          ground (
            arith,
            n,
            events-with_versions s full,
            max-with_versions s full,
            next-with_versions s full,
            with_tenant_same s e,
          ))
  ]

  map-append_if :
      (es : List Event) (e : Event) (b : Bool)
      → map (λ (e : Event). e.seq) (es ++ (if b then e ∷ [] else []))
        ≡ (if b then map (λ (e : Event). e.seq) es ++ e.seq ∷ [] else map (λ (e : Event). e.seq) es)
  map-append_if es e true = map-append _ es (e ∷ [])
  map-append_if es e false = rw append-nil

  pub one_to-step : (n : ℕ) → one_to (n + 1) ≡ one_to n ++ (n + 1) ∷ []
  one_to-step n = rw add-one

  -- An event that is not admitted leaves the numbers and the buffers as they were.
  pub admit-none_same :
      (s : Service Cache) (e : Event) (now : ℕ)
      → (admit L s e now).1 ≡ none
      → ((admit L s e now).0.events ≡ s.events) × ((admit L s e now).0.next_seq ≡ s.next_seq)
  admit-none_same s e now h = elim (admit_by_entity L s e now) [
    | inl (seen, p) ↦
        let full = with_tenant L s e in
        rw p (events-with_versions s full, next-with_versions s full)
    | inr (seen, p) ↦
        let full = with_tenant L s e in
        let t = record (with_versions L s full.task_id) { seen_events = seen } in
        rw p (
          ground (
            arith,
            admit_entity-none t full now (rw p at h),
            events-with_versions s full,
            next-with_versions s full,
          ))
  ]

  pub seqs_push :
      (max_events now : ℕ) (es : List Event) (e : Event)
      → seqs (trim max_events now (es ++ e ∷ []))
        ≡ (if e.durable then seqs es ++ e.seq ∷ [] else seqs es)
  seqs_push max_events now es e =
      rw (durable_of-trim max_events now (es ++ e ∷ []))
        (rw (durable_of-append es (e ∷ [])) (map-append_if (durable_of es) e e.durable))
