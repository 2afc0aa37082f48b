-- ===== src/Ring/Stable.antt =====
-- Ownership is stable when replicas join or leave.
use orbit_control.Prelude.{
  ℕ, zero, suc, ◌+◌, String, ◌≡◌, ◌≢◌, refl, ◌∙◌, inl, inr, not, none, some, List, [], ◌∷◌, ◌++◌,
  map, arith, ltb, str_eq, eq_iff, Occurs, Option-cases, filter_by, if◌then◌else◌,
}
use orbit_control.Prelude.Sort.{sort_by}
use orbit_control.Ring.{
  Ring, member_points, place, point_of, set_members, owner_at, owner, checksum,
}
use orbit_control.Ring.Routes.{
  owner_at-Occurs, Chosen-fewer, owner_from-Chosen, owner_from_of_Chosen, ltb-sorted,
}

-- the members but one
abbrev pub leave : String → List String → List String
leave m = filter_by (λ x. not (str_eq x m))

abbrev others : String → List (ℕ × String) → List (ℕ × String)
others m = filter_by (λ (w : ℕ × String). not (str_eq w.1 m))

others-append :
    (m : String) (xs ys : List (ℕ × String)) → others m (xs ++ ys) ≡ others m xs ++ others m ys
others-append m [] ys = refl
others-append m (x ∷ xs) ys = ground (arith, others-append m xs ys)

others-member_points :
    (m x : String) (replica count : ℕ)
    → others m (member_points x replica count)
      ≡ (if str_eq x m then [] else member_points x replica count)
unfolding member_points
others-member_points m x replica zero = ground arith
others-member_points m x replica (suc count) =
    ground (arith, others-member_points m x (replica + 1) count)

place-leave : (n : ℕ) (m : String) (ms : List String) → place n (leave m ms) ≡ others m (place n ms)
unfolding place
place-leave n m [] = refl
place-leave n m (x ∷ xs) = ground (
  arith,
  place-leave n m xs,
  others-append m (member_points x 0 n) (place n xs),
  others-member_points m x 0 n,
)

owner_at-others-none :
    (c : ℕ) (m : String) (ws : List (ℕ × String))
    → owner_at c ws ≡ none
    → owner_at c (others m ws) ≡ none
unfolding owner_at
owner_at-others-none c m [] h = refl
owner_at-others-none c m ((p, y) ∷ ws) h = ground (arith, owner_at-others-none c m ws)

owner_at-others :
    (c : ℕ) (m x : String) (ws : List (ℕ × String))
    → x ≢ m
    → owner_at c ws ≡ some x
    → owner_at c (others m ws) ≡ some x
unfolding owner_at
owner_at-others c m x [] n h = cc
owner_at-others c m x ((p, y) ∷ ws) n h = elim (Option-cases (owner_at c ws)) [
  | inl e ↦ ground (arith, owner_at-others-none c m ws e, eq_iff y m)
  | inr (z, e) ↦ ground (arith, owner_at-others c m x ws)
]

others-Occurs :
    (q : ℕ) (m : String) (ws : List (ℕ × String))
    → Occurs q (map point_of (others m ws))
    → Occurs q (map point_of ws)
others-Occurs q m [] h = h
others-Occurs q m (w ∷ ws) h = ground (arith, others-Occurs q m ws)

-- When a replica leaves, every task that another replica owned keeps its owner. (Read from right to
-- left: a replica that joins takes tasks over, and moves none between the others.) Points where the
-- checksums of two replicas collide make no exception.
pub leave-owner :
    (r : Ring) (members : List String) (m x task_id : String)
    → x ≢ m
    → owner (set_members r members) task_id ≡ some x
    → owner (set_members r (leave m members)) task_id ≡ some x
unfolding owner set_members
leave-owner r members m x task_id n h =
    let ws = place r.replicas members in
    let ps = map point_of ws in
    let (c, ch, mine) =
      owner_from-Chosen (checksum task_id) (sort_by ltb ps) ws (ltb-sorted ps) h in
    let kept = owner_at-others c m x ws n mine in
    rw (place-leave r.replicas m members) (
      owner_from_of_Chosen (checksum task_id) (sort_by ltb (map point_of (others m ws)))
        (others m ws) c (ltb-sorted (map point_of (others m ws)))
        (Chosen-fewer (checksum task_id) ps (map point_of (others m ws)) c
          (λ q. others-Occurs q m ws) (owner_at-Occurs c (others m ws) kept) ch)
      ∙ kept)
