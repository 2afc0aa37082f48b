-- ===== src/Service/Append/Trim.antt =====
-- What trimming the buffer of a task's events keeps.
use orbit_control.Prelude.{
  ℕ, ◌≤◌, Bool, true, not, ◌≡◌, refl, ◌||◌, List, [], ◌∷◌, ◌++◌, arith, filter_by, length, drop,
  ◌-◌,
}
use orbit_control.Service.{Event}
use orbit_control.Service.Append.{expired, has_seq, trim}

abbrev pub durable_of : List Event → List Event
durable_of = filter_by (λ e. e.durable)

filter_by-keeps :
    (keep : Event → Bool) (es : List Event)
    → ((e : Event) → e.durable ≡ true → keep e ≡ true)
    → durable_of (filter_by keep es) ≡ durable_of es
filter_by-keeps keep [] h = refl
filter_by-keeps keep (e ∷ es) h = ground (arith, h e, filter_by-keeps keep es h)

-- No durable event is ever trimmed, and their order stays.
pub durable_of-trim :
    (max_events now : ℕ) (es : List Event) → durable_of (trim max_events now es) ≡ durable_of es
unfolding trim
durable_of-trim max_events now es = ground (
  arith,
  filter_by-keeps
      (λ e.
        e.durable
        || has_seq
            (drop (length (filter_by (λ e. not (expired now e)) es) - max_events)
              (filter_by (λ e. not (expired now e)) es))
            e.seq)
      es (λ e h. rw h),
)

length-filter_by-le :
    (keep : Event → Bool) (es : List Event) → length (filter_by keep es) ≤ length es
length-filter_by-le keep [] = omega arith
length-filter_by-le keep (e ∷ es) = ground (arith, length-filter_by-le keep es)

-- A buffer of at most `max_events` events is left whole, the expired ephemeral events included.
pub trim_within :
    (max_events now : ℕ) (es : List Event) → length es ≤ max_events → trim max_events now es ≡ es
unfolding trim
trim_within max_events now es h = ground (arith, length-filter_by-le (λ e. not (expired now e)) es)

pub durable_of-append :
    (es fs : List Event) → durable_of (es ++ fs) ≡ durable_of es ++ durable_of fs
durable_of-append [] fs = refl
durable_of-append (e ∷ es) fs = ground (arith, durable_of-append es fs)
