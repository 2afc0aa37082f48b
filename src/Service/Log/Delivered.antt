-- ===== src/Service/Log/Delivered.antt =====
-- What a subscriber's channel takes of the events that are recorded for its task.
use mathlib.Core.List.{append-nil, append_assoc}
use mathlib.Core.Path.{subst}
use orbit_control.Prelude.{
  ℕ, suc, ◌+◌, ◌≤◌, String, ◌≡◌, ◌≢◌, refl, sym, ap, ◌∙◌, Option, none, some, List, [], ◌∷◌, ◌++◌,
  arith, length, length-append, map, All, lookup, lookup-insert_self, Option-cases, inl, inr, ◌==◌,
  if◌then◌else◌,
}
use orbit_control.Outcome.{Result, ok}
use orbit_control.Lru.{Lru}
use orbit_control.Value.{Value}
use orbit_control.Service.{Principal, Task, Event, Subscriber, Service, or_empty}
use orbit_control.Service.Append.{offer, publish}
use orbit_control.Service.Tasks.{get}
use orbit_control.Service.Replay.{
  StoredEvents, events_after, subscriber_buffer, open_subscriber, register, subscribe,
}
use orbit_control.Service.Replay.Opened.{Replays, subscribe-Started}
use orbit_control.Service.Log.{publish_all, record_event}

-- Offer the events to a subscriber in turn.
abbrev pub offers : Subscriber → List Event → Subscriber
offers sub [] = sub
offers sub (e ∷ es) = offers (offer e sub) es

offer-queued :
    (sub : Subscriber) (e : Event)
    → length sub.queued + 1 ≤ sub.capacity
    → ((offer e sub).queued ≡ sub.queued ++ e ∷ []) × ((offer e sub).capacity ≡ sub.capacity)
unfolding offer
offer-queued sub e h = ground arith

offers-queued :
    (sub : Subscriber) (es : List Event)
    → length sub.queued + length es ≤ sub.capacity
    → (offers sub es).queued ≡ sub.queued ++ es
offers-queued sub [] h = sym (append-nil _)
offers-queued sub (e ∷ es) h =
    let (q, c) = offer-queued sub e (omega arith) in
    let size = length-append sub.queued (e ∷ []) in
    let fits : length (offer e sub).queued + length es ≤ (offer e sub).capacity =
      rw (q, c) (omega (arith, size)) in
    offers-queued (offer e sub) es fits ∙ rw q (append_assoc sub.queued (e ∷ []) es)

-- the first of the subscribers with an address
pub at_address : ℕ → List Subscriber → Option Subscriber
at_address address [] = none
at_address address (sub ∷ subs) =
    let rest = at_address address subs in if sub.id == address then some sub else rest

abbrev pub queue_of : Option Subscriber → Option (List Event)
queue_of none = none
queue_of (some sub) = some sub.queued

publish-at_address :
    (e : Event) (address : ℕ) (subs : List Subscriber) (sub : Subscriber)
    → at_address address subs ≡ some sub
    → at_address address (publish e subs) ≡ some (offer e sub)
unfolding publish at_address offer
publish-at_address e address [] sub h = ground arith
publish-at_address e address (x ∷ xs) sub h = ground (arith, publish-at_address e address xs sub)

length-firsts : (es : List (Event × ℕ)) → length (map (λ x. x.0) es) ≡ length es
length-firsts [] = refl
length-firsts (e ∷ es) = ap suc (length-firsts es)

none_there : (address : ℕ) (sub : Subscriber) → at_address address [] ≢ some sub
unfolding at_address
none_there address sub h = ground arith

module _ (L : Lru (Unit {0})) (time_of : Value → Option ℕ) where
  open L use {Cache}

  -- the subscriber of a task with an address
  abbrev pub subscriber_of : Service Cache → String → ℕ → Option Subscriber
  subscriber_of s id address = at_address address (or_empty (lookup id s.subs))

  -- The events that are recorded one after the other, each with the time at which it is.
  pub records : Service Cache → List (Event × ℕ) → Service Cache
  records s [] = s
  records s ((e, now) ∷ es) = records (record_event L time_of s e now) es

  publish_all-publish :
      (s : Service Cache) (e : Event) (subs : List Subscriber)
      → lookup e.task_id s.subs ≡ some subs
      → lookup e.task_id (publish_all L s e) ≡ some (publish e subs)
  unfolding publish_all
  publish_all-publish s e subs p =
      rw (publish_all, p) (lookup-insert_self e.task_id (publish e subs) s.subs)

  record_event-offer :
      (s : Service Cache) (e : Event) (now address : ℕ) (sub : Subscriber)
      → subscriber_of s e.task_id address ≡ some sub
      → subscriber_of (record_event L time_of s e now) e.task_id address ≡ some (offer e sub)
  unfolding record_event
  record_event-offer s e now address sub h = elim (Option-cases (lookup e.task_id s.subs)) [
    | inl p ↦ absurd (none_there address sub (rw p at h))
    | inr (subs, p) ↦
        ap (λ o. at_address address (or_empty o)) (publish_all-publish s e subs p)
        ∙ publish-at_address e address subs sub (rw p at h)
  ]

  queued_for :
      (es : List (Event × ℕ)) (s : Service Cache) (id : String) (address : ℕ) (sub : Subscriber)
      → subscriber_of s id address ≡ some sub
      → All (λ (x : Event × ℕ). x.0.task_id ≡ id) es
      → subscriber_of (records s es) id address ≡ some (offers sub (map (λ x. x.0) es))
  unfolding records
  queued_for [] s id address sub h own = h
  queued_for ((e, now) ∷ es) s id address sub h (same, own) =
      queued_for es (record_event L time_of s e now) id address (offer e sub)
        (subst (λ i. subscriber_of (record_event L time_of s e now) i address ≡ some (offer e sub))
          same
          (record_event-offer s e now address sub
            (subst (λ i. subscriber_of s i address ≡ some sub) (sym same) h)))
        own

  register-subscriber_of :
      (s : Service Cache) (id : String) (sub : Subscriber)
      → subscriber_of (register s id sub) id sub.id ≡ some sub
  unfolding register at_address
  register-subscriber_of s id sub =
      rw (lookup-insert_self id (sub ∷ or_empty (lookup id s.subs)) s.subs) (ground arith)

  -- A subscription that was opened has in its queue what was listed for it, or nothing of that where
  -- its cursor is refused, and then every event recorded for its task since, in order, up to 256 of
  -- them: none is lost, though nothing has been read yet. What other calls did between the listing and
  -- the registration is not in the queue.
  pub subscriber_misses_nothing :
      (found : Option (Result Task)) (stored : Option StoredEvents)
      (meanwhile : Service Cache → Service Cache) (s : Service Cache) (p : Principal) (id : String)
      (after address : ℕ) (sub : Subscriber) (head : ℕ) (live : List (Event × ℕ))
      → (subscribe found stored meanwhile s p id after address).1 ≡ ok (sub, head)
      → All (λ (x : Event × ℕ). x.0.task_id ≡ id) live
      → length live ≤ subscriber_buffer
      → let listing = (events_after stored (get found s p id).0 p id after).1 in
        let s' = (subscribe found stored meanwhile s p id after address).0 in
        (items : List Event) × Replays listing.error listing.items items
        × (queue_of (subscriber_of (records s' live) id address)
            ≡ some (items ++ map (λ x. x.0) live))
  unfolding open_subscriber
  subscriber_misses_nothing found stored meanwhile s p id after address sub head live h own few =
      let before = (events_after stored (get found s p id).0 p id after).0 in
      let (items, shown, same, left) =
        subscribe-Started stored meanwhile p id after address found s sub head h in
      let start = open_subscriber address items in
      let there = register-subscriber_of (meanwhile before) id start in
      (
        items,
        shown,
        rw
            (
              left,
              same,
              queued_for live (register (meanwhile before) id start) id address start there own,
            )
            (ap some
              (offers-queued start (map (λ x. x.0) live) (omega (arith, few, length-firsts live)))),
      )
