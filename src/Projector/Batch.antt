-- ===== src/Projector/Batch.antt =====
-- What a batch of the projector does with its rows.
use orbit_control.Prelude.{
  ℕ, ◌<◌, true, ◌≡◌, ◌≢◌, refl, sym, ap, ◌∙◌, Option, none, some, List, [], ◌∷◌, map, arith,
  Bool-cases, inl, inr,
}
use mathlib.Core.Path.{subst}
use orbit_control.Outcome.{Error, malformed_event, encoding, Result, ok, err}
use orbit_control.Lru.{Lru}
use orbit_control.Value.{Value}
use orbit_control.Service.{Event, Service}
use orbit_control.Service.Log.Retry.{refused_then_dropped}
use orbit_control.Projector.{
  OutboxRecord, Looped, Projected, is_malformed, kept_row, with_id, marked_ids, dropped_row,
  stopped, marked_all, event_of, append_row, appended, project_row, project_rows, project,
  project_loop,
}

abbrev pub row_id : OutboxRecord → ℕ
row_id row = row.id

malformed_of : (x : Error) → is_malformed x ≡ true → x ≡ malformed_event
malformed_of malformed_event h = refl
malformed_of x h = ground arith

with_id-ok :
    (id : ℕ) (r : Result (List ℕ)) (ids : List ℕ)
    → with_id id r ≡ ok ids
    → (tail : List ℕ) × (r ≡ ok tail) × (ids ≡ id ∷ tail)
with_id-ok id (err x) ids h = ground arith
with_id-ok id (ok tail) ids h = (tail, refl, ground arith)

marked_ids-some : (r : Result (List ℕ)) (ids : List ℕ) → marked_ids r ≡ some ids → r ≡ ok ids
marked_ids-some (err x) ids h = ground arith
marked_ids-some (ok found) ids h = ground arith

module _ (time_of : Value → Option ℕ) (L : Lru (Unit {0})) (append : Option (Event → Result Event))
    (clock : OutboxRecord → ℕ × ℕ) where
  open L use {Cache}

  -- The rows are settled one after the other: an event was appended without an error, or its row was
  -- dropped because the event is malformed or the body does not decode.
  pub data Settled
      : Service Cache
        → List OutboxRecord
        → List (OutboxRecord × Error)
        → Service Cache
        → Type 0 where
    done : {s : Service Cache} → Settled s [] [] s
    took :
        {s t : Service Cache} {row : OutboxRecord} {rows : List OutboxRecord}
        {lost : List (OutboxRecord × Error)} (e : Event)
        → event_of time_of row ≡ some e
        → (append_row time_of L append clock s row e).1 ≡ ok tt
        → Settled (append_row time_of L append clock s row e).0 rows lost t
        → Settled s (row ∷ rows) lost t
    malformed :
        {s t : Service Cache} {row : OutboxRecord} {rows : List OutboxRecord}
        {lost : List (OutboxRecord × Error)} (e : Event)
        → event_of time_of row ≡ some e
        → (append_row time_of L append clock s row e).1 ≡ err malformed_event
        → Settled (append_row time_of L append clock s row e).0 rows lost t
        → Settled s (row ∷ rows) ((row, malformed_event) ∷ lost) t
    undecoded :
        {s t : Service Cache} {row : OutboxRecord} {rows : List OutboxRecord}
        {lost : List (OutboxRecord × Error)}
        → event_of time_of row ≡ none
        → Settled s rows lost t
        → Settled s (row ∷ rows) ((row, encoding) ∷ lost) t

  -- what a loop over rows that ends with ids comes to
  abbrev Ends : Service Cache → List OutboxRecord → Service Cache × Looped → Type 0
  Ends s rows r =
      (ids : List ℕ) → r.1.ids ≡ ok ids → (ids ≡ map row_id rows) × Settled s rows r.1.lost r.0

  appended-Ends :
      (s : Service Cache) (r : Service Cache × Result (Unit {0}) × Option Event)
      (row : OutboxRecord) (rows : List OutboxRecord)
      (rest : Service Cache → Service Cache × Looped) (e : Event)
      → event_of time_of row ≡ some e
      → append_row time_of L append clock s row e ≡ r
      → ((t : Service Cache) → Ends t rows (rest t))
      → Ends s (row ∷ rows) (appended time_of L append clock r row rest)
  unfolding appended kept_row dropped_row stopped
  appended-Ends s (t, ok tt, h) row rows rest e p q ends = λ ids k.
      let (tail, k', same) = with_id-ok row.id (rest t).1.ids ids k in
      let (listed, settled) = ends t tail k' in
      (
        same ∙ ap (λ l. row.id ∷ l) listed,
        took e p (ap (λ x. x.1) q)
            (subst (λ x. Settled x.0 rows (rest t).1.lost (rest t).0) (sym q) settled),
      )
  appended-Ends s (t, err x, h) row rows rest e p q ends = elim (Bool-cases (is_malformed x)) [
    | inl m ↦ rw m (λ ids k.
        let (tail, k', same) = with_id-ok row.id (rest t).1.ids ids k in
        let (listed, settled) = ends t tail k' in
        let is = malformed_of x m in
        (
          same ∙ ap (λ l. row.id ∷ l) listed,
          subst (λ y. Settled s (row ∷ rows) ((row, y) ∷ (rest t).1.lost) (rest t).0) (sym is)
              (malformed e p (ap (λ y. y.1) q ∙ ap err is)
                (subst (λ y. Settled y.0 rows (rest t).1.lost (rest t).0) (sym q) settled)),
        ))
    | inr m ↦ rw m (λ ids k. ground arith)
  ]

  project_row-Ends :
      (s : Service Cache) (row : OutboxRecord) (rows : List OutboxRecord)
      (rest : Service Cache → Service Cache × Looped) (found : Option Event)
      → event_of time_of row ≡ found
      → ((t : Service Cache) → Ends t rows (rest t))
      → Ends s (row ∷ rows) (project_row time_of L append clock found s row rest)
  unfolding project_row dropped_row kept_row
  project_row-Ends s row rows rest none p ends = λ ids k.
      let (tail, k', same) = with_id-ok row.id (rest s).1.ids ids k in
      let (listed, settled) = ends s tail k' in
      (same ∙ ap (λ l. row.id ∷ l) listed, undecoded p settled)
  project_row-Ends s row rows rest (some e) p ends =
      appended-Ends s (append_row time_of L append clock s row e) row rows rest e p refl ends

  project_rows-Ends :
      (rows : List OutboxRecord) (s : Service Cache)
      → Ends s rows (project_rows time_of L append clock s rows)
  unfolding project_rows
  project_rows-Ends [] s = λ ids k. (ground arith, done)
  project_rows-Ends (row ∷ rows) s =
      project_row-Ends s row rows (λ t. project_rows time_of L append clock t rows)
        (event_of time_of row) refl (λ t. project_rows-Ends rows t)

  -- A batch marks its rows all or none. If it marks them, every row was settled in order: its event
  -- was appended without an error, or the row was dropped, with the reason, because its body does
  -- not decode or its event is malformed.
  pub project-Settled :
      (rows : List OutboxRecord) (mark : List ℕ → Result (Unit {0})) (s : Service Cache)
      (ids : List ℕ)
      → let r = project time_of L append clock (ok rows) mark s in
        r.1.marked ≡ some ids → (ids ≡ map row_id rows) × Settled s rows r.1.dropped r.0
  unfolding project project_loop marked_all
  project-Settled [] mark s ids h = ground arith
  project-Settled (row ∷ rows) mark s ids h =
      project_rows-Ends (row ∷ rows) s ids
        (marked_ids-some (project_rows time_of L append clock s (row ∷ rows)).1.ids ids h)

module _ (time_of : Value → Option ℕ) (L : Lru (Unit {0})) (mark : List ℕ → Result (Unit {0}))
    (row : OutboxRecord) where
  open L use {Cache}

  -- a batch of one row
  abbrev pub batch :
      Option (Event → Result Event)
      → (OutboxRecord → ℕ × ℕ)
      → Service Cache
      → Service Cache × Projected
  batch append clock s = project time_of L append clock (ok (row ∷ [])) mark s

  module _ (append : Option (Event → Result Event)) (clock : OutboxRecord → ℕ × ℕ) where
    abbrev alone : Service Cache × Result (Unit {0}) × Option Event → Service Cache × Projected
    alone r = project_loop time_of L append clock mark (
        appended time_of L append clock r row
          (λ s. (s, record { lost = []; handed = []; ids = ok [] })))

    batch-alone :
        (s : Service Cache) (e : Event)
        → event_of time_of row ≡ some e
        → batch append clock s ≡ alone (append_row time_of L append clock s row e)
    unfolding project project_rows project_row
    batch-alone s e p = rw p refl

    alone-none :
        (r : Service Cache × Result (Unit {0}) × Option Event)
        → (alone r).1.marked ≡ none
        → (x : Error) × (r.1 ≡ err x) × ((alone r).0 ≡ r.0)
    unfolding project_loop appended marked_all kept_row dropped_row
    alone-none (s, ok tt, h) n = ground arith
    alone-none (s, err x, h) n = elim (Bool-cases (is_malformed x)) [
      | inl m ↦ ground arith
      | inr m ↦ (x, refl, rw m refl)
    ]

    alone-dropped :
        (r : Service Cache × Result (Unit {0}) × Option Event)
        → r.1 ≡ ok tt
        → r.2 ≡ none
        → ((alone r).1.marked ≡ some (row.id ∷ []))
          × ((alone r).1.stored ≡ [])
          × ((alone r).1.dropped ≡ [])
    unfolding project_loop appended marked_all kept_row
    alone-dropped (s, ok tt, h) p q = (refl, rw q refl, refl)
    alone-dropped (s, err x, h) p q = ground arith

  -- An outbox row whose event moves an entity is marked although its event was never written: the
  -- store refuses the write in one batch, which marks nothing for it, and the next batch with the row
  -- marks it without handing the event to the store, and reports no drop, whatever the store answers.
  pub project-lost :
      (first : Event → Result Event) (second : Option (Event → Result Event))
      (clock again : OutboxRecord → ℕ × ℕ) (s : Service Cache) (e : Event)
      → event_of time_of row ≡ some e
      → e.entity_kind ≢ ""
      → e.entity_id ≢ ""
      → 0 < e.entity_version
      → (batch (some first) clock s).1.marked ≡ none
      → let retry = batch second again (batch (some first) clock s).0 in
        (retry.1.marked ≡ some (row.id ∷ [])) × (retry.1.stored ≡ []) × (retry.1.dropped ≡ [])
  unfolding append_row
  project-lost first second clock again s e p k i v n =
      let one = append_row time_of L (some first) clock s row e in
      let b = batch-alone (some first) clock s e p in
      let (x, failed, same) =
        alone-none (some first) clock one (subst (λ r. r.1.marked ≡ none) b n) in
      let (fine, nothing) =
        refused_then_dropped L time_of s e first second (clock row).0 (clock row).1 (again row).0
          (again row).1 k i v failed in
      let left = (batch (some first) clock s).0 in
      let at = ap (λ r. r.0) b ∙ same in
      subst (λ r. (r.1.marked ≡ some (row.id ∷ [])) × (r.1.stored ≡ []) × (r.1.dropped ≡ []))
        (sym (batch-alone second again left e p))
        (alone-dropped second again (append_row time_of L second again left row e)
          (subst (λ t. (append_row time_of L second again t row e).1 ≡ ok tt) (sym at) fine)
          (subst (λ t. (append_row time_of L second again t row e).2 ≡ none) (sym at) nothing))
