-- ===== src/Service/Log/Order.antt =====
-- The numbers of a task's durable events, where the service has no projection store.
use orbit_control.Prelude.{
  ℕ, ◌+◌, ◌≤◌, ◌<◌, ◌^◌, String, false, ◌≡◌, refl, ◌⊎◌, inl, inr, Option, none, some, List, [], ◌∷◌,
  ◌++◌, arith, str_eq, eq_iff, lookup, lookup-insert, Bool-cases, All, length,
}
use orbit_control.Lru.{Lru}
use orbit_control.Value.{Value}
use orbit_control.Service.{Event, Service, or_zero, or_empty, new}
use orbit_control.Service.Append.{trim}
use orbit_control.Service.Log.Numbered.{
  Gapless, Numbered, admit-Numbered, seqs_push, one_to-step, admit-none_same,
}
use orbit_control.Service.Log.{admit, record_event, finish, append_event_raw}

module _ (L : Lru (Unit {0})) where
  open L use {Cache}

  module _ (time_of : Value → Option ℕ) where
    -- Recording a durable event that was given the next number keeps every task gapless.
    record_event-Gapless :
        (s s' : Service Cache) (e e' : Event) (now : ℕ) (id : String)
        → Numbered L s s' e e'
        → or_zero (lookup e.task_id s.next_seq) + 1 < 2 ^ 64
        → (e.durable ≡ false → e.seq ≡ 0)
        → Gapless L s id
        → Gapless L (record_event L time_of s' e' now) id
    unfolding record_event
    record_event-Gapless s s' e e' now id n b z g = elim (Bool-cases (str_eq e.task_id id)) [
      | inl p ↦ ground (
        arith,
        n,
        one_to-step L (or_zero (lookup e.task_id s.next_seq)),
        eq_iff e.task_id id,
        eq_iff e'.task_id id,
        lookup-insert e.task_id id e'.seq s.next_seq,
        lookup-insert e'.task_id id e'.seq s'.next_seq,
        lookup-insert e'.task_id id
            (trim s'.max_events now (or_empty (lookup e'.task_id s'.events) ++ e' ∷ [])) s'.events,
        seqs_push L s'.max_events now (or_empty (lookup e'.task_id s'.events)) e',
      )
      | inr p ↦ ground (
        arith,
        n,
        lookup-insert e.task_id id e'.seq s.next_seq,
        lookup-insert e'.task_id id e'.seq s'.next_seq,
        lookup-insert e'.task_id id
            (trim s'.max_events now (or_empty (lookup e'.task_id s'.events) ++ e' ∷ [])) s'.events,
      )
    ]

    -- One more event moves the last number of a task by at most one.
    record_event-next :
        (s s' : Service Cache) (e e' : Event) (now : ℕ) (id : String)
        → Numbered L s s' e e'
        → or_zero (lookup e.task_id s.next_seq) + 1 < 2 ^ 64
        → (e.durable ≡ false → e.seq ≡ 0)
        → or_zero (lookup id (record_event L time_of s' e' now).next_seq)
          ≤ or_zero (lookup id s.next_seq) + 1
    unfolding record_event
    record_event-next s s' e e' now id n b z = ground (
      arith,
      n,
      eq_iff e.task_id id,
      eq_iff e'.task_id id,
      lookup-insert e.task_id id e'.seq s.next_seq,
      lookup-insert e'.task_id id e'.seq s'.next_seq,
    )

    abbrev pub after : Service Cache → Event → ℕ → ℕ → Service Cache
    after s e now later = (append_event_raw L time_of none s e now later).0

    finish-local :
        (p : Service Cache × Option Event) (later : ℕ)
        → ((p.1 ≡ none) × ((finish L time_of none p later).0 ≡ p.0))
          ⊎ ((e' : Event) × (p.1 ≡ some e')
              × ((finish L time_of none p later).0 ≡ record_event L time_of p.0 e' later))
    unfolding finish
    finish-local (s, none) later = inl (refl, refl)
    finish-local (s, some e') later = inr (e', refl, refl)

    -- Appending, with no store, either leaves the numbers alone or records an event.
    after-cases :
        (s : Service Cache) (e : Event) (now later : ℕ)
        → (((after s e now later).events ≡ s.events)
            × ((after s e now later).next_seq ≡ s.next_seq))
          ⊎ ((s' : Service Cache) × (e' : Event) × Numbered L s s' e e'
              × (after s e now later ≡ record_event L time_of s' e' later))
    after-cases s e now later = elim (finish-local (admit L s e now) later) [
      | inl (p, q) ↦ inl (unfold append_event_raw in rw q (admit-none_same L s e now p))
      | inr (e', p, q) ↦
          inr ((admit L s e now).0, e', admit-Numbered L s e now p, unfold append_event_raw in q)
    ]

    -- Without a store, appending any event keeps every task's durable events numbered 1, 2, … with no
    -- gap and no repeat, as long as the numbers do not wrap and an ephemeral event comes unnumbered.
    pub append-Gapless :
        (s : Service Cache) (e : Event) (now later : ℕ) (id : String)
        → or_zero (lookup e.task_id s.next_seq) + 1 < 2 ^ 64
        → (e.durable ≡ false → e.seq ≡ 0)
        → Gapless L s id
        → Gapless L (append_event_raw L time_of none s e now later).0 id
    append-Gapless s e now later id b z g = elim (after-cases s e now later) [
      | inl (p, q) ↦ rw (p, q) g
      | inr (s', e', n, q) ↦ rw q (record_event-Gapless s s' e e' later id n b z g)
    ]

    after-next :
        (s : Service Cache) (e : Event) (now later : ℕ) (id : String)
        → or_zero (lookup e.task_id s.next_seq) + 1 < 2 ^ 64
        → (e.durable ≡ false → e.seq ≡ 0)
        → or_zero (lookup id (after s e now later).next_seq) ≤ or_zero (lookup id s.next_seq) + 1
    after-next s e now later id b z = elim (after-cases s e now later) [
      | inl (p, q) ↦ rw q (omega arith)
      | inr (s', e', n, q) ↦ rw q (record_event-next s s' e e' later id n b z)
    ]

    abbrev pub Unnumbered : Event × ℕ × ℕ → Type 0
    Unnumbered (e, _, _) = e.durable ≡ false → e.seq ≡ 0

    -- Append the events in turn, each with the two times that its call reads.
    abbrev pub appends : Service Cache → List (Event × ℕ × ℕ) → Service Cache
    appends s [] = s
    appends s ((e, now, later) ∷ es) = appends (after s e now later) es

    appends-Gapless :
        (s : Service Cache) (es : List (Event × ℕ × ℕ)) (n : ℕ) (id : String)
        → ((id : String) → or_zero (lookup id s.next_seq) ≤ n)
        → n + length es < 2 ^ 64
        → All Unnumbered es
        → Gapless L s id
        → Gapless L (appends s es) id
    appends-Gapless s [] n id below b z g = g
    appends-Gapless s ((e, now, later) ∷ es) n id below b (z, zs) g =
        let fits : or_zero (lookup e.task_id s.next_seq) + 1 < 2 ^ 64 =
          omega (arith, below e.task_id) in
        appends-Gapless (after s e now later) es (n + 1) id
          (λ j. omega (arith, after-next s e now later j fits z, below j)) (omega arith) zs
          (append-Gapless s e now later id fits z g)

    -- A service with no store that starts empty has numbered every task's durable events 1, 2, …,
    -- n, whatever events of whatever tasks were appended, if they are fewer than 2^64 and the
    -- ephemeral ones come without a number.
    pub history-Gapless :
        (seen : Cache) (es : List (Event × ℕ × ℕ)) (id : String)
        → length es < 2 ^ 64
        → All Unnumbered es
        → Gapless L (appends (new seen) es) id
    history-Gapless seen es id b z =
        appends-Gapless (new seen) es 0 id (unfold new lookup in λ j. omega arith) (omega arith) z
          (unfold new lookup in refl)
