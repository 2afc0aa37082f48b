-- ===== src/Service/Replay/Opened.antt =====
-- What a subscription that was opened starts with.
use orbit_control.Prelude.{
  ℕ, String, ◌≡◌, refl, sym, ap, ◌⊎◌, inl, inr, Option, none, some, List, [], arith,
}
use orbit_control.Outcome.{Error, bad_cursor, Result, ok, err, ok_inj}
use orbit_control.Service.{Principal, Task, Event, Subscriber, Service}
use orbit_control.Service.Tasks.{get}
use orbit_control.Service.Replay.{
  Listing, StoredEvents, events_after, open_subscriber, register, replayed_unless, replayed, opened,
  listed, subscribe_found, subscribe,
}

-- what a subscription replays of a listing: all of it, or nothing where the cursor is refused
abbrev pub Replays : Option Error → List Event → List Event → Type 0
Replays error shown items =
    ((error ≡ none) × (items ≡ shown)) ⊎ ((error ≡ some bad_cursor) × (items ≡ []))

replayed_unless-Replays :
    (error : Option Error) (l : Listing) (items : List Event) (head : ℕ)
    → replayed_unless error l ≡ ok (items, head)
    → Replays error l.items items
unfolding replayed_unless
replayed_unless-Replays none l items head h = inl (refl, sym (ap (λ r. r.0) (ok_inj _ _ h)))
replayed_unless-Replays (some bad_cursor) l items head h =
    inr (refl, sym (ap (λ r. r.0) (ok_inj _ _ h)))
replayed_unless-Replays (some x) l items head h = ground arith

module _ {Seen : Type 0} (stored : Option StoredEvents) (meanwhile : Service Seen → Service Seen)
    (p : Principal) (id : String) (after address : ℕ) where
  -- The subscriber is registered for its task, in the service as other calls have left it since the
  -- events were listed, and its queue is the replay of that listing.
  abbrev pub Started : Service Seen × Listing → Service Seen → Subscriber → Type 0
  Started r s' sub =
      (items : List Event) × Replays r.1.error r.1.items items
      × (sub ≡ open_subscriber address items)
      × (s' ≡ register (meanwhile r.0) id sub)

  opened-ok :
      (s : Service Seen) (r : Result (List Event × ℕ)) (sub : Subscriber) (head : ℕ)
      → (opened meanwhile s id address r).1 ≡ ok (sub, head)
      → (items : List Event) × (r ≡ ok (items, head))
        × (sub ≡ open_subscriber address items)
        × ((opened meanwhile s id address r).0 ≡ register (meanwhile s) id sub)
  unfolding opened
  opened-ok s (err x) sub head h = ground arith
  opened-ok s (ok (items, n)) sub head h =
      let e = ok_inj (open_subscriber address items, n) (sub, head) h in
      (
        items,
        ap (λ k. ok (items, k)) (ap (λ r. r.1) e),
        sym (ap (λ r. r.0) e),
        ap (register (meanwhile s) id) (ap (λ r. r.0) e),
      )

  listed-Started :
      (r : Service Seen × Listing) (sub : Subscriber) (head : ℕ)
      → (listed meanwhile r id address).1 ≡ ok (sub, head)
      → Started r (listed meanwhile r id address).0 sub
  unfolding listed replayed
  listed-Started (s, l) sub head h =
      let (items, shown, same, left) = opened-ok s (replayed l) sub head h in
      (items, replayed_unless-Replays l.error l items head shown, same, left)

  subscribe_found-Started :
      (got : Service Seen × Result Task) (sub : Subscriber) (head : ℕ)
      → (subscribe_found stored meanwhile got p id after address).1 ≡ ok (sub, head)
      → Started
          (events_after stored got.0 p id after)
          (subscribe_found stored meanwhile got p id after address).0
          sub
  unfolding subscribe_found
  subscribe_found-Started (s, err x) sub head h = ground arith
  subscribe_found-Started (s, ok t) sub head h =
      listed-Started (events_after stored s p id after) sub head h

  pub subscribe-Started :
      (found : Option (Result Task)) (s : Service Seen) (sub : Subscriber) (head : ℕ)
      → (subscribe found stored meanwhile s p id after address).1 ≡ ok (sub, head)
      → Started
          (events_after stored (get found s p id).0 p id after)
          (subscribe found stored meanwhile s p id after address).0
          sub
  unfolding subscribe
  subscribe-Started found s sub head h = subscribe_found-Started (get found s p id) sub head h
