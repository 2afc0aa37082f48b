-- ===== src/Service/Replay.antt =====
-- internal/task/events.go and subscribers.go: replaying a task's events to a reader, and opening a
-- subscription. Ending one is in Service.Subscribers.
pub mod Merged
pub mod Opened
pub mod Cursor
use orbit_control.Prelude.{
  ℕ, ◌+◌, ◌-◌, ◌*◌, ◌%◌, ◌^◌, String, Bool, true, false, not, ◌&&◌, ◌||◌, Option, none, some, List,
  [], ◌∷◌, ◌++◌, ltb, leb, ◌==◌, if◌then◌else◌, lookup, insert, filter_by, length,
}
use orbit_control.Prelude.Sort.{sort_by}
use orbit_control.Outcome.{Error, not_found, bad_cursor, Result, ok, err}
use orbit_control.Service.{Principal, Task, Event, Subscriber, Service, or_empty}
use orbit_control.Service.Append.{u64}
use orbit_control.Service.Tasks.{get, owned_by}

-- An ephemeral event stands right after the durable event that it followed.
pub position : Event → ℕ
position e = if e.durable || ltb 0 e.seq then u64 (e.seq * 2) else u64 (u64 (e.after_seq * 2) + 1)

abbrev pub earlier : Event → Event → Bool
earlier a b = ltb (position a) (position b)

-- the ephemeral events of the buffer that a reader after `after` gets
abbrev pub live_after : ℕ → Event → Bool
live_after after e = not e.durable && leb after e.after_seq

pub with_live_events : List Event → List Event → ℕ → List Event
with_live_events durable buffered after =
    sort_by earlier (durable ++ filter_by (live_after after) buffered)

-- uint64 subtraction
abbrev pub sub64 : ℕ → ℕ → ℕ
sub64 a b = (a + 2 ^ 64 - b) % 2 ^ 64

last_seq : ℕ → List Event → ℕ
last_seq seq [] = seq
last_seq seq (e ∷ es) = last_seq e.seq es

-- The loop over the buffer: the number of the last durable event, and the durable events after `after`.
durable_head : ℕ → List Event → ℕ
durable_head head [] = head
durable_head head (e ∷ es) = durable_head (if e.durable then e.seq else head) es

abbrev pub durable_after : ℕ → Event → Bool
durable_after after e = e.durable && ltb after e.seq

-- The events, the head and the error; with `bad_cursor` the head is still the buffer's last number.
pub record Listing : Type 0 where
  pub items : List Event
  pub head : ℕ
  pub error : Option Error

abbrev pub refused : Error → Listing
refused x = record { items = []; head = 0; error = some x }

list_buffer : List Event → ℕ → Listing
unfolding durable_head with_live_events
list_buffer buffered after = record {
  items = with_live_events (filter_by (durable_after after) buffered) buffered after;
  head = durable_head 0 buffered;
  error = none;
}

pub events_buffered : List Event → ℕ → Listing
unfolding last_seq list_buffer
events_buffered [] after = list_buffer [] after
events_buffered (e ∷ es) after =
    if not (after == 0) && ltb after (sub64 e.seq 1)
    then record { items = []; head = last_seq e.seq es; error = some bad_cursor }
    else list_buffer (e ∷ es) after

events_of : Principal → Option Task → List Event → ℕ → Listing
unfolding events_buffered
events_of p none buffered after = refused not_found
events_of p (some t) buffered after =
    if owned_by p t then events_buffered buffered after else refused not_found

-- What the store answers for the task and for its events.
pub record StoredEvents : Type 0 where
  pub task : Result Task
  pub listed : Result (List Event × ℕ)

stored_events : Result (List Event × ℕ) → List Event → ℕ → Listing
unfolding with_live_events
stored_events (err x) buffered after = refused x
stored_events (ok (items, head)) buffered after = record {
  items = with_live_events items buffered after;
  head = head;
  error = none;
}

module _ {Seen : Type 0} where
  events_found :
      Service Seen × Result Task → Result (List Event × ℕ) → String → ℕ → Service Seen × Listing
  unfolding stored_events
  events_found (s, err x) listed id after = (s, refused x)
  events_found (s, ok t) listed id after =
      (s, stored_events listed (or_empty (lookup id s.events)) after)

  unfoldable pub events_after :
      Option StoredEvents → Service Seen → Principal → String → ℕ → Service Seen × Listing
  unfolding events_of events_found
  events_after none s p id after =
      (s, events_of p (lookup id s.tasks) (or_empty (lookup id s.events)) after)
  events_after (some stored) s p id after =
      events_found (get (some stored.task) s p id) stored.listed id after

abbrev pub subscriber_buffer : ℕ
subscriber_buffer = 256

-- The replay is queued while the lock is held: the channel takes all of it.
unfoldable pub open_subscriber : ℕ → List Event → Subscriber
open_subscriber address items = record {
  id = address;
  queued = items;
  capacity = subscriber_buffer + length items;
  closed = false;
}

-- A cursor that cannot be resumed is no error here: nothing is replayed.
replayed_unless : Option Error → Listing → Result (List Event × ℕ)
replayed_unless none l = ok (l.items, l.head)
replayed_unless (some bad_cursor) l = ok ([], l.head)
replayed_unless (some x) l = err x

pub replayed : Listing → Result (List Event × ℕ)
unfolding replayed_unless
replayed l = replayed_unless l.error l

module _ {Seen : Type 0} where
  -- `s.subs[id][sub] = struct{}{}`, with the map of the task made where there is none
  unfoldable pub register : Service Seen → String → Subscriber → Service Seen
  register s id sub = record s { subs = insert id (sub ∷ or_empty (lookup id s.subs)) s.subs }

  opened :
      (Service Seen → Service Seen)
      → Service Seen
      → String
      → ℕ
      → Result (List Event × ℕ)
      → Service Seen × Result (Subscriber × ℕ)
  unfolding register open_subscriber
  opened meanwhile s id address (err x) = (s, err x)
  opened meanwhile s id address (ok (items, head)) = (
    register (meanwhile s) id (open_subscriber address items),
    ok (open_subscriber address items, head),
  )

  listed :
      (Service Seen → Service Seen)
      → Service Seen × Listing
      → String
      → ℕ
      → Service Seen × Result (Subscriber × ℕ)
  unfolding opened replayed
  listed meanwhile (s, l) id address = opened meanwhile s id address (replayed l)

  subscribe_found :
      Option StoredEvents
      → (Service Seen → Service Seen)
      → Service Seen × Result Task
      → Principal
      → String
      → ℕ
      → ℕ
      → Service Seen × Result (Subscriber × ℕ)
  unfolding listed
  subscribe_found stored meanwhile (s, err x) p id after address = (s, err x)
  subscribe_found stored meanwhile (s, ok t) p id after address =
      listed meanwhile (events_after stored s p id after) id address

  -- Subscribe, with the address that the new subscriber has. The lock is free between `EventsAfter`
  -- and the registration: `meanwhile` is what other calls make of the service there.
  unfoldable pub subscribe :
      Option (Result Task)
      → Option StoredEvents
      → (Service Seen → Service Seen)
      → Service Seen
      → Principal
      → String
      → ℕ
      → ℕ
      → Service Seen × Result (Subscriber × ℕ)
  unfolding subscribe_found
  subscribe found stored meanwhile s p id after address =
      subscribe_found stored meanwhile (get found s p id) p id after address
