-- ===== src/App/Experts/Latest.antt =====
-- The version that an update builds on is the newest.
use orbit_control.Prelude.{
  String, true, ◌≡◌, refl, sym, ap, ◌∙◌, ◌&&◌, Option, none, some, List, [], ◌∷◌, Assoc, lookup,
  insert, lookup-insert, lookup-insert_self, str_eq, if◌then◌else◌, arith, eq_iff, Bool-cases,
  Option-cases, inl, inr, Occurs, ◌⊎◌,
}
use orbit_control.Prelude.Int.{ℤ, pos, ◌≤ℤ◌, ltb_ℤ, ◌+ℤ◌}
use mathlib.Core.Option.{some-injective}
use mathlib.Core.Path.{subst}
use orbit_control.Outcome.{ok}
use orbit_control.Service.{Profile}
use orbit_control.App.Teams.{kind_of}
use orbit_control.App.Experts.{
  ExpertInput, is_expert, newer, latest_from, latest_profiles, next_version, update_expert,
}

-- the newest of the versions of `id` so far is at least as new as `q`
abbrev AtLeast : Assoc Profile → Profile → Type 0
AtLeast latest q = (r : Profile) × (lookup q.profile_id latest ≡ some r) × (q.version ≤ℤ r.version)

abbrev step : Assoc Profile → Profile → Assoc Profile
step latest q =
    if is_expert q && newer (lookup q.profile_id latest) q
    then insert q.profile_id q latest
    else latest

step-AtLeast :
    (latest : Assoc Profile) (q x : Profile) → AtLeast latest x → AtLeast (step latest q) x
unfolding newer
step-AtLeast latest q x (r, p, le) = elim (Bool-cases (str_eq q.profile_id x.profile_id)) [
  | inl same ↦ elim (Bool-cases (is_expert q && newer (lookup q.profile_id latest) q)) [
    | inl put_ ↦ rw put_ (
      q,
      ground (arith, same, lookup-insert q.profile_id x.profile_id q latest),
      ground (arith, eq_iff q.profile_id x.profile_id),
    )
    | inr kept ↦ rw kept (r, p, le)
  ]
  | inr other ↦ elim (Bool-cases (is_expert q && newer (lookup q.profile_id latest) q)) [
    | inl put_ ↦
        rw put_ (r, ground (arith, other, lookup-insert q.profile_id x.profile_id q latest), le)
    | inr kept ↦ rw kept (r, p, le)
  ]
]

step-own : (latest : Assoc Profile) (q : Profile) → is_expert q ≡ true → AtLeast (step latest q) q
unfolding newer
step-own latest q e = elim (Option-cases (lookup q.profile_id latest)) [
  | inl p ↦ rw (e, p) (q, lookup-insert_self q.profile_id q latest, omega arith)
  | inr (r, p) ↦ elim (Bool-cases (ltb_ℤ r.version q.version)) [
    | inl old ↦ rw (e, p, old) (q, lookup-insert_self q.profile_id q latest, omega arith)
    | inr new ↦ rw (e, p, new) (r, p, ground arith)
  ]
]

latest_from-AtLeast :
    (qs : List Profile) (latest : Assoc Profile) (x : Profile)
    → AtLeast latest x
    → AtLeast (latest_from latest qs) x
unfolding latest_from
latest_from-AtLeast [] latest x h = h
latest_from-AtLeast (q ∷ qs) latest x h =
    latest_from-AtLeast qs (step latest q) x (step-AtLeast latest q x h)

latest_from-newest :
    (qs : List Profile) (latest : Assoc Profile) (x : Profile)
    → Occurs x qs
    → is_expert x ≡ true
    → AtLeast (latest_from latest qs) x
unfolding latest_from
latest_from-newest [] latest x h e = absurd h
latest_from-newest (q ∷ qs) latest x (inl same) e = latest_from-AtLeast qs (step latest q) x (
    subst (λ y. AtLeast (step latest q) y) (sym same)
      (step-own latest q (subst (λ y. is_expert y ≡ true) same e)))
latest_from-newest (q ∷ qs) latest x (inr later) e = latest_from-newest qs (step latest q) x later e

-- what is kept for an id is one of the expert's versions that were given
abbrev pub VersionOf : List Profile → String → Profile → Type 0
VersionOf qs id r = Occurs r qs × (is_expert r ≡ true) × (r.profile_id ≡ id)

step-lookup :
    (latest : Assoc Profile) (q r : Profile) (id : String)
    → lookup id (step latest q) ≡ some r
    → (lookup id latest ≡ some r) ⊎ ((q ≡ r) × (is_expert q ≡ true) × (q.profile_id ≡ id))
step-lookup latest q r id h =
    ground (arith, eq_iff q.profile_id id, lookup-insert q.profile_id id q latest)

latest_from-VersionOf :
    (qs : List Profile) (latest : Assoc Profile) (id : String) (r : Profile)
    → lookup id (latest_from latest qs) ≡ some r
    → (lookup id latest ≡ some r) ⊎ VersionOf qs id r
unfolding latest_from
latest_from-VersionOf [] latest id r h = inl h
latest_from-VersionOf (q ∷ qs) latest id r h =
    elim (latest_from-VersionOf qs (step latest q) id r h) [
      | inl here ↦ elim (step-lookup latest q r id here) [
        | inl before ↦ inl before
        | inr (same, expert, own) ↦ inr (
          inl (sym same),
          subst (λ y. is_expert y ≡ true) same expert,
          subst (λ y. y.profile_id ≡ id) same own,
        )
      ]
      | inr (there, expert, own) ↦ inr (inr there, expert, own)
    ]

next_version-ok :
    (latest : Option Profile) (in_ accepted : ExpertInput) (version : ℤ)
    → next_version latest in_ ≡ ok (accepted, version)
    → (r : Profile) × (latest ≡ some r)
      × (version ≡ r.version +ℤ pos 1)
      × (accepted.kind ≡ kind_of r)
unfolding next_version
next_version-ok none in_ accepted version h = ground arith
next_version-ok (some r) in_ accepted version h = (
  r,
  refl,
  ground (arith, eq_iff in_.kind ""),
  ground (arith, eq_iff in_.kind "", eq_iff in_.kind (kind_of r)),
)

-- An update that is let through builds on a version of the expert that the tenant has and that no
-- other of its versions is above: it is written with the kind of that version and under the next.
pub update_expert-newest :
    (profiles : List Profile) (id : String) (in_ accepted : ExpertInput) (version : ℤ)
    → update_expert profiles id in_ ≡ ok (accepted, version)
    → (r : Profile) × VersionOf profiles id r
      × (accepted.kind ≡ kind_of r)
      × (version ≡ r.version +ℤ pos 1)
      × ((x : Profile)
          → Occurs x profiles
          → is_expert x ≡ true
          → x.profile_id ≡ id
          → x.version ≤ℤ r.version)
unfolding update_expert latest_profiles lookup
update_expert-newest profiles id in_ accepted version h =
    let (r, p, next, kind) =
      next_version-ok (lookup id (latest_profiles profiles)) in_ accepted version h in
    (
      r,
      elim (latest_from-VersionOf profiles [] id r p) [ inl none_ ↦ ground arith | inr is ↦ is ],
      kind,
      next,
      λ x there expert own.
          let (r', p', le) = latest_from-newest profiles [] x there expert in
          subst (λ y. x.version ≤ℤ y.version)
            (some-injective r' r (sym p' ∙ ap (λ k. lookup k (latest_profiles profiles)) own ∙ p))
            le,
    )
