-- ===== src/Witnesses/Log.antt =====
-- Runs of the event log and of its readers.
use mathlib.Core.List.{Perm}
use orbit_control.Prelude.{
  ℕ, true, false, ◌≡◌, refl, none, some, List, [], ◌∷◌, ◌++◌, lookup, insert, arith, ne_of_str_eq,
  filter_by, map, not, ◌&&◌, leb,
}
use orbit_control.Outcome.{storage, bad_cursor, Result, ok, err}
use orbit_control.Lru.{newest, refresh}
use orbit_control.Service.{Event, Subscriber, Service, new}
use orbit_control.Service.Log.{append_event_raw}
use orbit_control.Service.Log.Numbered.{Gapless}
use orbit_control.Service.Log.Order.{appends, history-Gapless}
use orbit_control.Service.Log.Retry.{refused_then_dropped}
use orbit_control.Service.Replay.{with_live_events, events_buffered, events_after, subscribe}
use orbit_control.Service.Replay.Merged.{InPlace, with_live_events_complete}
use orbit_control.Prelude.Sort.{sort_by}
use orbit_control.Service.Replay.Opened.{Replays}
use orbit_control.Service.Log.Delivered.{
  queue_of, subscriber_of, records, subscriber_misses_nothing,
}
use orbit_control.Service.Tasks.{get, owned_by}
use orbit_control.Service.Replay.Cursor.{ephemeral_first_refused}
use orbit_control.Witnesses.Samples.{seen, no_time, alice, service}
open seen use {Cache}

abbrev event : Event
event = record {
  seq = 0;
  after_seq = 0;
  event_id = "e1";
  task_id = "t1";
  tenant_id = "a";
  type = "node.updated";
  source = "runtime";
  payload = none;
  occurred = 3;
  durable = true;
  entity_kind = "";
  entity_id = "";
  entity_version = 0;
  entity = none;
}

abbrev delta : Event
delta = record event { event_id = "e2"; durable = false; after_seq = 1 }

abbrev history : List (Event × ℕ × ℕ)
history = (event, 10, 11) ∷ (delta, 12, 13) ∷ (record event { event_id = "e3" }, 14, 15) ∷ []

history-Gapless_example : Gapless seen (appends seen no_time (new []) history) "t1"
history-Gapless_example =
    history-Gapless seen no_time [] history "t1" (omega arith)
      (λ h. refl, (λ h. refl, (λ h. refl, tt)))

abbrev node : Event
node = record event { entity_kind = "node"; entity_id = "n1"; entity_version = 4 }

abbrev refuse : Event → Result Event
refuse e = err storage

abbrev accept : Event → Result Event
accept e = ok e

refused : (append_event_raw seen no_time (some refuse) (new []) node 10 11).1 ≡ err storage
unfolding append_event_raw new lookup insert newest refresh
refused = refl

refused_then_dropped_example :
    let s' = (append_event_raw seen no_time (some refuse) (new []) node 10 11).0 in
    let retry = append_event_raw seen no_time (some accept) s' node 20 21 in
    (retry.1 ≡ ok tt) × (retry.2 ≡ none)
refused_then_dropped_example =
    refused_then_dropped seen no_time (new []) node refuse (some accept) 10 11 20 21
      (ne_of_str_eq "node" "" refl) (ne_of_str_eq "n1" "" refl) (omega arith) refused

abbrev numbered : Event
numbered = record event { seq = 5 }

abbrev buffer : List Event
buffer = delta ∷ numbered ∷ record numbered { seq = 6 } ∷ []

ephemeral_first_refused_example : (events_buffered buffer 5).error ≡ some bad_cursor
ephemeral_first_refused_example =
    ephemeral_first_refused delta (numbered ∷ record numbered { seq = 6 } ∷ []) 5 refl (omega arith)
      (omega arith)

with_live_events_complete_example :
    Perm
      (with_live_events (numbered ∷ []) buffer 1)
      ((numbered ∷ []) ++ filter_by (λ e. not e.durable && leb 1 e.after_seq) buffer)
    × InPlace (with_live_events (numbered ∷ []) buffer 1)
with_live_events_complete_example = with_live_events_complete (numbered ∷ []) buffer 1

abbrev logged : Service Cache
logged = record service { events = ("t1", numbered ∷ []) ∷ [] }

abbrev same : Service Cache → Service Cache
same s = s

abbrev subscribed : Service Cache × Result (Subscriber × ℕ)
subscribed = subscribe none none same logged alice "t1" 0 77

abbrev channel : Subscriber
channel = record { id = 77; queued = numbered ∷ []; capacity = 257; closed = false }

opened : subscribed.1 ≡ ok (channel, 5)
unfolding subscribe get lookup owned_by events_after sort_by
opened = refl

abbrev live : List (Event × ℕ)
live = (event, 10) ∷ (delta, 12) ∷ []

subscriber_misses_nothing_example :
    let listing = (events_after none (get none logged alice "t1").0 alice "t1" 0).1 in
    (items : List Event) × Replays listing.error listing.items items
    × (queue_of (subscriber_of seen no_time (records seen no_time subscribed.0 live) "t1" 77)
        ≡ some (items ++ map (λ x. x.0) live))
subscriber_misses_nothing_example =
    subscriber_misses_nothing seen no_time none none same logged alice "t1" 0 77 channel 5 live
      opened (refl, (refl, tt)) (omega arith)
