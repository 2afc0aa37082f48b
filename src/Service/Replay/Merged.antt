-- ===== src/Service/Replay/Merged.antt =====
-- What the merge of a replay with the live events comes to.
use mathlib.Core.List.{Perm}
use orbit_control.Prelude.{
  ℕ, ◌+◌, ◌*◌, ◌^◌, ◌≤◌, ◌<◌, true, false, not, ◌&&◌, ◌≡◌, ◌⊎◌, List, [], ◌∷◌, ◌++◌, arith,
  filter_by, leb, All,
}
use orbit_control.Prelude.Sort.{Ordered, sort_by-perm, sort_by-Ordered}
use orbit_control.Service.{Event}
use orbit_control.Service.Replay.{position, earlier, with_live_events}

-- an event that is numbered, and one that follows a numbered one; the numbers are below 2^63
abbrev pub IsNumbered : Event → Type 0
IsNumbered e = (e.durable ≡ true) × (e.seq < 2 ^ 63)

abbrev pub IsLive : Event → Type 0
IsLive e = (e.durable ≡ false) × (e.seq ≡ 0) × (e.after_seq < 2 ^ 63)

abbrev pub IsEvent : Event → Type 0
IsEvent e = IsNumbered e ⊎ IsLive e

-- `x` may stand before `y`: numbers do not fall, a live event stands behind the event that it follows
-- and before the next one
abbrev pub MayPrecede : Event → Event → Type 0
MayPrecede x y =
    (IsNumbered x → IsNumbered y → x.seq ≤ y.seq)
    × (IsNumbered x → IsLive y → x.seq ≤ y.after_seq)
    × (IsLive x → IsNumbered y → x.after_seq < y.seq)
    × (IsLive x → IsLive y → x.after_seq ≤ y.after_seq)

abbrev pub InPlace : List Event → Type 0
InPlace [] = Unit
InPlace (x ∷ xs) = All (MayPrecede x) xs × InPlace xs

position-numbered : (e : Event) → IsNumbered e → position e ≡ e.seq * 2
unfolding position
position-numbered e (d, n) = rw d (omega (arith, n))

position-live : (e : Event) → IsLive e → position e ≡ e.after_seq * 2 + 1
unfolding position
position-live e (d, z, n) = rw (d, z) (omega (arith, n))

not_earlier : (x y : Event) → earlier y x ≡ false → position x ≤ position y
not_earlier x y h = ground arith

earlier-MayPrecede : (x y : Event) → earlier y x ≡ false → MayPrecede x y
earlier-MayPrecede x y h =
    let le = not_earlier x y h in
    (
      λ p q. omega (arith, le, position-numbered x p, position-numbered y q),
      λ p q. omega (arith, le, position-numbered x p, position-live y q),
      λ p q. omega (arith, le, position-live x p, position-numbered y q),
      λ p q. omega (arith, le, position-live x p, position-live y q),
    )

All-MayPrecede :
    (x : Event) (ys : List Event) → All (λ y. earlier y x ≡ false) ys → All (MayPrecede x) ys
All-MayPrecede x [] h = tt
All-MayPrecede x (y ∷ ys) (h, hs) = (earlier-MayPrecede x y h, All-MayPrecede x ys hs)

Ordered-InPlace : (xs : List Event) → Ordered earlier xs → InPlace xs
Ordered-InPlace [] h = tt
Ordered-InPlace (x ∷ xs) (h, hs) = (All-MayPrecede x xs h, Ordered-InPlace xs hs)

-- The merged replay holds each durable event, and each buffered event that is ephemeral and follows the
-- cursor's event or a later one, exactly as often as its source does. In it numbers do not fall, and a
-- live event stands behind the durable event that it follows and before the next one.
pub with_live_events_complete :
    (durable buffered : List Event) (after : ℕ)
    → Perm
        (with_live_events durable buffered after)
        (durable ++ filter_by (λ e. not e.durable && leb after e.after_seq) buffered)
      × InPlace (with_live_events durable buffered after)
unfolding with_live_events
with_live_events_complete durable buffered after = (
  sort_by-perm earlier _,
  Ordered-InPlace _ (sort_by-Ordered earlier (λ x y h. ground arith) (λ x y z h k. ground arith) _),
)
