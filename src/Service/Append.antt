-- ===== src/Service/Append.antt =====
-- internal/task/events.go and projection_apply.go: appending one event. The three parts are the three
-- regions in which `appendEventRaw` holds the service's mutex; `appendMu` keeps two appends apart.
pub mod Trim
use orbit_control.Prelude.{
  ℕ, ◌+◌, ◌-◌, ◌*◌, ◌%◌, ◌^◌, String, Bool, true, false, not, ◌&&◌, ◌||◌, Option, none, some, List,
  [], ◌∷◌, ◌++◌, ltb, leb, ◌==◌, str_eq, if◌then◌else◌, Assoc, lookup, insert, contains, length,
  drop, filter_by,
}
use orbit_control.Prelude.Int.{ℤ, pos, ltb_ℤ, ◌+ℤ◌}
use orbit_control.Outcome.{Result, ok, err}
use orbit_control.Text.{◌⧺◌}
use orbit_control.Value.{
  Value, null, number, text, object, Fields, end, field, get, put, as_text, as_number, as_object,
}
use orbit_control.Service.{
  Task, Event, Entity, Subscriber, Service, ArtifactManifest, or_zero, or_empty,
}

-- uint64
abbrev pub u64 : ℕ → ℕ
u64 n = n % 2 ^ 64

unfoldable pub event_key : String → String → String
event_key task_id event_id = task_id ⧺ "\0" ⧺ event_id

unfoldable pub entity_key : String → String → String
entity_key kind id = kind ⧺ ":" ⧺ id

-- max(a, b)
unfoldable pub max_of : ℕ → ℕ → ℕ
max_of a b = if ltb a b then b else a

-- slicesContains and removeString
pub remove_string : List String → String → List String
remove_string [] wanted = []
remove_string (item ∷ items) wanted =
    let rest = remove_string items wanted in if str_eq item wanted then rest else item ∷ rest

-- One round of the loop of `addNumbers`.
pub add_number : Fields → String → Value → Fields
add_number out key null = out
add_number out key (number n) = elim (as_number (get key out)) [
  | none ↦ put key (number n) out
  | some m ↦ put key (number (m +ℤ n)) out
]
add_number out key value = put key value out

unfoldable pub add_numbers : Fields → Fields → Fields
unfolding add_number
add_numbers base end = base
add_numbers base (field key value delta) = add_numbers (add_number base key value) delta

apply_version : Option ℤ → Task → Task
apply_version none t = t
apply_version (some version) t =
    if ltb_ℤ t.plan_version version then record t { plan_version = version } else t

apply_requested : Option String → Task → Task
apply_requested none t = t
apply_requested (some id) t =
    if not (str_eq id "") && not (contains id t.pending_approvals)
    then record t { pending_approvals = t.pending_approvals ++ id ∷ [] }
    else t

apply_decided : Option String → Task → Task
unfolding remove_string
apply_decided none t = t
apply_decided (some id) t = record t { pending_approvals = remove_string t.pending_approvals id }

apply_status : Option String → Task → Task
apply_status none t = t
apply_status (some status) t = record t { status = status }

apply_budget : Option Fields → Task → Task
apply_budget none t = t
apply_budget (some delta) t = record t { budgets = add_numbers t.budgets delta }

apply_usage : Option Fields → Task → Task
apply_usage none t = t
apply_usage (some usage) t = record t { usage = add_numbers t.usage usage }

-- The switch over the event's type.
apply_payload : String → Fields → Task → Task
unfolding apply_status apply_version apply_requested apply_decided apply_budget apply_usage
apply_payload type payload t =
    if str_eq type "task.status_changed"
    then apply_status (as_text (get "to_status" payload)) t
    else if str_eq type "task.completed"
    then record t { status = "COMPLETED" }
    else if str_eq type "plan.version_committed"
    then apply_version (as_number (get "plan_version" payload)) t
    else if str_eq type "approval.requested"
    then apply_requested (as_text (get "approval_id" payload)) t
    else if str_eq type "approval.decided"
    then apply_decided (as_text (get "approval_id" payload)) t
    else if str_eq type "budget.granted"
    then apply_budget (as_object (get "delta" payload)) t
    else if str_eq type "usage.recorded"
    then apply_usage (as_object (get "usage" payload)) t
    else t

decoded : Event → Option Fields → Task → Task
unfolding apply_payload
decoded e none t = t
decoded e (some payload) t = record (apply_payload e.type payload t) { updated_at = e.occurred }

unfoldable pub apply_event : Event → Task → Task
unfolding decoded
apply_event e t = decoded e e.payload t

-- 15 minutes, in nanoseconds
abbrev pub live_window : ℕ
live_window = 900000000000

-- an ephemeral event older than the window
pub expired : ℕ → Event → Bool
expired now e = not e.durable && ltb (e.occurred + live_window) now

has_seq : List Event → ℕ → Bool
has_seq [] seq = false
has_seq (e ∷ es) seq = let rest = has_seq es seq in if e.seq == seq then true else rest

-- The buffer after an append: what is called `ephemeral` in the source are the unexpired events.
pub trim : ℕ → ℕ → List Event → List Event
unfolding expired has_seq
trim max_events now items =
    let unexpired = filter_by (λ e. not (expired now e)) items in
    if ltb max_events (length unexpired)
    then (let last = drop (length unexpired - max_events) unexpired in
        filter_by (λ e. e.durable || has_seq last e.seq) items)
    else items

-- A send that does not wait: a full channel misses the event.
unfoldable pub offer : Event → Subscriber → Subscriber
offer e sub =
    if ltb (length sub.queued) sub.capacity
    then record sub { queued = sub.queued ++ e ∷ [] }
    else sub

unfoldable pub publish : Event → List Subscriber → List Subscriber
unfolding offer
publish e [] = []
publish e (sub ∷ subs) = offer e sub ∷ publish e subs
