-- ===== src/Service/Replay/Cursor.antt =====
-- When a reader's cursor is refused.
use orbit_control.Prelude.{ℕ, ◌+◌, ◌-◌, ◌^◌, ◌<◌, ◌≡◌, some, List, ◌∷◌, arith, ◌↔◌}
use orbit_control.Outcome.{bad_cursor}
use orbit_control.Service.{Event}
use orbit_control.Service.Replay.{events_buffered}

-- While an ephemeral event, which has no number, is the oldest in the buffer, every cursor but 0 and
-- the largest number is refused, however recent the events that the reader has seen.
pub ephemeral_first_refused :
    (e : Event) (es : List Event) (after : ℕ)
    → e.seq ≡ 0
    → 0 < after
    → after < 2 ^ 64 - 1
    → (events_buffered (e ∷ es) after).error ≡ some bad_cursor
unfolding events_buffered
ephemeral_first_refused e es after z p b = ground arith

-- Behind an oldest event with a number above 0, a uint64, a cursor is refused exactly when it is
-- not 0 and the event after it is no longer in the buffer.
pub numbered_first_refused :
    (e : Event) (es : List Event) (after : ℕ)
    → 0 < e.seq
    → e.seq < 2 ^ 64
    → ((events_buffered (e ∷ es) after).error ≡ some bad_cursor)
      ↔ ((0 < after) × (after + 1 < e.seq))
unfolding events_buffered
numbered_first_refused e es after p b = ground arith
