-- ===== src/Service/Subscribers.antt =====
-- internal/task/subscribers.go: ending the streams of live events. A call answers with the
-- subscribers whose channels it closes; Go panics where a channel is closed twice.
use orbit_control.Prelude.{
  ℕ, String, true, ◌≡◌, refl, Option, none, some, List, [], ◌∷◌, ◌++◌, Assoc, lookup, insert, ◌==◌,
  if◌then◌else◌, arith, lookup-insert_self, Option-cases, inl, inr,
}
use orbit_control.Service.{Subscriber, Service}

all_subscribers : Assoc (List Subscriber) → List Subscriber
all_subscribers [] = []
all_subscribers ((id, subs) ∷ rest) = subs ++ all_subscribers rest

-- `delete(s.subs[id], sub)`
pub without_subscriber : ℕ → List Subscriber → List Subscriber
without_subscriber address [] = []
without_subscriber address (sub ∷ subs) =
    let rest = without_subscriber address subs in if sub.id == address then rest else sub ∷ rest

pub with_address : ℕ → List Subscriber → List Subscriber
with_address address [] = []
with_address address (sub ∷ subs) =
    let rest = with_address address subs in if sub.id == address then sub ∷ rest else rest

abbrev closed_ : Subscriber → Subscriber
closed_ sub = record sub { closed = true }

pub close_each : List Subscriber → List Subscriber
close_each [] = []
close_each (sub ∷ subs) = closed_ sub ∷ close_each subs

module _ {Seen : Type 0} where
  -- CloseAllSubscribers
  pub close_all_subscribers : Service Seen → Service Seen × List Subscriber
  unfolding all_subscribers close_each
  close_all_subscribers s = (record s { subs = [] }, close_each (all_subscribers s.subs))

  remove_found :
      Option (List Subscriber) → Service Seen → String → ℕ → Service Seen × List Subscriber
  unfolding without_subscriber with_address close_each
  remove_found none s id address = (s, [])
  remove_found (some subs) s id address = (
    record s { subs = insert id (without_subscriber address subs) s.subs },
    close_each (with_address address subs),
  )

  -- removeSubscriber, which is what `Close` of a subscription calls.
  pub remove_subscriber : Service Seen → String → ℕ → Service Seen × List Subscriber
  unfolding remove_found
  remove_subscriber s id address = remove_found (lookup id s.subs) s id address

with_address-without :
    (a : ℕ) (subs : List Subscriber) → with_address a (without_subscriber a subs) ≡ []
unfolding with_address without_subscriber
with_address-without a [] = refl
with_address-without a (sub ∷ subs) = ground (arith, with_address-without a subs)

-- The end of a subscription closes its channel at most once: after all subscribers were closed, and
-- after the subscription was ended before, ending it closes nothing.
pub remove_subscriber-once :
    {Seen : Type 0} (s : Service Seen) (id : String) (address : ℕ)
    → ((remove_subscriber (close_all_subscribers s).0 id address).1 ≡ [])
      × ((remove_subscriber (remove_subscriber s id address).0 id address).1 ≡ [])
unfolding remove_subscriber close_all_subscribers remove_found lookup
remove_subscriber-once s id address = (
  refl,
  elim (Option-cases (lookup id s.subs)) [
    | inl p ↦ rw (p, p) refl
    | inr (subs, p) ↦
        rw
          (
            p,
            lookup-insert_self id (without_subscriber address subs) s.subs,
            with_address-without address subs,
          )
          refl
  ],
)
