-- ===== src/Ring/Routes.antt =====
-- Routing a hash, read in the points as they were written.
use mathlib.Core.Path.{subst}
use orbit_control.Prelude.{
  ℕ, zero, suc, ◌+◌, ◌≤◌, ◌<◌, String, ◌≡◌, ◌≢◌, refl, ap, ◌⊎◌, inl, inr, none, some, List, [], ◌∷◌,
  ◌++◌, map, arith, ltb, str_eq, eq_iff, All, Occurs, Bool-cases, Option-cases,
}
use orbit_control.Prelude.Sort.{Ordered, sort_by, sort_by-Occurs, sort_by-Ordered}
use orbit_control.Ring.{
  Ring, member_points, place, point_of, set_members, owner_at, choose, owner_from, owner, checksum,
}
use orbit_control.Ring.Choice.{Chosen, Chosen-unique, choose-Chosen, All-Occurs}

pub owner_at-Occurs :
    (c : ℕ) (ws : List (ℕ × String)) {x : String}
    → owner_at c ws ≡ some x
    → Occurs c (map point_of ws)
unfolding owner_at
owner_at-Occurs c [] h = absurd (cc h)
owner_at-Occurs c ((p, y) ∷ ws) h = elim (Option-cases (owner_at c ws)) [
  | inl e ↦ inl (ground arith)
  | inr (z, e) ↦ inr (owner_at-Occurs c ws e)
]

-- The point where a hash is routed in the sorted points, read in the unsorted ones.
pub Chosen-sort :
    (hash : ℕ) (ps : List ℕ) (c : ℕ)
    → Chosen hash (sort_by ltb ps) c
    → (Occurs c ps × (hash ≤ c) × ((q : ℕ) → Occurs q ps → hash ≤ q → c ≤ q))
      ⊎ (Occurs c ps × ((q : ℕ) → Occurs q ps → q < hash) × ((q : ℕ) → Occurs q ps → c ≤ q))
Chosen-sort hash ps c (inl (o, h, m)) = inl (
  (sort_by-Occurs ltb c ps).0 o,
  h,
  λ q oq. All-Occurs (λ q. hash ≤ q → c ≤ q) _ m ((sort_by-Occurs ltb q ps).1 oq),
)
Chosen-sort hash ps c (inr (o, below, m)) = inr (
  (sort_by-Occurs ltb c ps).0 o,
  (λ q oq. All-Occurs (λ q. q < hash) _ below ((sort_by-Occurs ltb q ps).1 oq)),
  λ q oq. All-Occurs (λ q. c ≤ q) _ m ((sort_by-Occurs ltb q ps).1 oq),
)

pub All-of_Occurs : (P : ℕ → Type 0) (ps : List ℕ) → ((q : ℕ) → Occurs q ps → P q) → All P ps
All-of_Occurs P [] h = tt
All-of_Occurs P (p ∷ ps) h = (h p (inl refl), All-of_Occurs P ps (λ q o. h q (inr o)))

-- With fewer points, a point that is still there is still the one chosen.
pub Chosen-fewer :
    (hash : ℕ) (ps qs : List ℕ) (c : ℕ)
    → ((q : ℕ) → Occurs q qs → Occurs q ps)
    → Occurs c qs
    → Chosen hash (sort_by ltb ps) c
    → Chosen hash (sort_by ltb qs) c
Chosen-fewer hash ps qs c sub here ch =
    let back = λ (q : ℕ) (o : Occurs q (sort_by ltb qs)). sub q ((sort_by-Occurs ltb q qs).0 o) in
    let still = (sort_by-Occurs ltb c qs).1 here in
    elim (Chosen-sort hash ps c ch) [
      | inl (o, h, m) ↦ inl (still, h, All-of_Occurs _ (sort_by ltb qs) (λ q oq. m q (back q oq)))
      | inr (o, below, m) ↦ inr (
        still,
        All-of_Occurs _ (sort_by ltb qs) (λ q oq. below q (back q oq)),
        All-of_Occurs _ (sort_by ltb qs) (λ q oq. m q (back q oq)),
      )
    ]

-- Routing among sorted points: the owner is the last writer of the chosen point.
pub owner_from-Chosen :
    (hash : ℕ) (ps : List ℕ) (ws : List (ℕ × String)) {x : String}
    → Ordered ltb ps
    → owner_from hash ps ws ≡ some x
    → (c : ℕ) × Chosen hash ps c × (owner_at c ws ≡ some x)
unfolding owner_from
owner_from-Chosen hash [] ws s h = absurd (cc h)
owner_from-Chosen hash (p ∷ ps) ws s h = (choose hash p (p ∷ ps), choose-Chosen hash p ps s, h)

pub owner_from_of_Chosen :
    (hash : ℕ) (ps : List ℕ) (ws : List (ℕ × String)) (c : ℕ)
    → Ordered ltb ps
    → Chosen hash ps c
    → owner_from hash ps ws ≡ owner_at c ws
unfolding owner_from
owner_from_of_Chosen hash [] ws c s ch = elim ch [
  | inl (o, _, _) ↦ absurd o
  | inr (o, _, _) ↦ absurd o
]
owner_from_of_Chosen hash (p ∷ ps) ws c s ch =
    ap (λ d. owner_at d ws)
      (Chosen-unique hash (p ∷ ps) (choose hash p (p ∷ ps)) c (choose-Chosen hash p ps s) ch)

pub ltb-sorted : (ps : List ℕ) → Ordered ltb (sort_by ltb ps)
ltb-sorted ps = sort_by-Ordered ltb (λ x y h. ground arith) (λ x y z h k. ground arith) ps

owner_at-All :
    (P : String → Type 0) (c : ℕ) (ws : List (ℕ × String)) {y : String}
    → All (λ (w : ℕ × String). P w.1) ws
    → owner_at c ws ≡ some y
    → P y
unfolding owner_at
owner_at-All P c [] h e = absurd (cc e)
owner_at-All P c ((p, x) ∷ ws) {y} (h, hs) e = elim (Option-cases (owner_at c ws)) [
  | inl q ↦ subst P (ground arith) h
  | inr (z, q) ↦ subst P (ground arith) (owner_at-All P c ws hs q)
]

owner_at-total :
    (c : ℕ) (ws : List (ℕ × String)) → Occurs c (map point_of ws) → owner_at c ws ≢ none
unfolding owner_at
owner_at-total c [] o = absurd o
owner_at-total c ((p, x) ∷ ws) o = ground (arith, owner_at-total c ws)

-- what the loops place: a name that is not empty and stands among the members
abbrev pub IsMember : List String → String → Type 0
IsMember members x = Occurs x members × (x ≢ "")

member_points-All :
    (P : String → Type 0) (x : String) (replica count : ℕ)
    → P x
    → All (λ (w : ℕ × String). P w.1) (member_points x replica count)
unfolding member_points
member_points-All P x replica zero h = tt
member_points-All P x replica (suc count) h = (h, member_points-All P x (replica + 1) count h)

All-append :
    (P : String → Type 0) (xs ys : List (ℕ × String))
    → All (λ (w : ℕ × String). P w.1) xs
    → All (λ (w : ℕ × String). P w.1) ys
    → All (λ (w : ℕ × String). P w.1) (xs ++ ys)
All-append P [] ys h k = k
All-append P (x ∷ xs) ys (h, hs) k = (h, All-append P xs ys hs k)

All-map_later :
    (m : String) (members : List String) (ws : List (ℕ × String))
    → All (λ (w : ℕ × String). IsMember members w.1) ws
    → All (λ (w : ℕ × String). IsMember (m ∷ members) w.1) ws
All-map_later m members [] h = tt
All-map_later m members (w ∷ ws) ((o, n), hs) = ((inr o, n), All-map_later m members ws hs)

place-All :
    (n : ℕ) (members : List String)
    → All (λ (w : ℕ × String). IsMember members w.1) (place n members)
unfolding place
place-All n [] = tt
place-All n (m ∷ ms) = elim (Bool-cases (str_eq m "")) [
  | inl e ↦ rw e (All-map_later m ms (place n ms) (place-All n ms))
  | inr e ↦ rw e (
      All-append (IsMember (m ∷ ms)) (member_points m 0 n) (place n ms)
        (member_points-All (IsMember (m ∷ ms)) m 0 n (inl refl, ground (arith, eq_iff m "")))
        (All-map_later m ms (place n ms) (place-All n ms)))
]

-- Some placement exists where some member has a name and there is a virtual node.
place-some :
    (n : ℕ) (members : List String) (x : String) → 0 < n → IsMember members x → place n members ≢ []
unfolding place member_points
place-some zero members x h m = absurd (omega arith)
place-some (suc n) [] x h (o, _) = absurd o
place-some (suc n) (m ∷ ms) x h (inl e, ne) = ground (arith, eq_iff m "")
place-some (suc n) (m ∷ ms) x h (inr o, ne) =
    ground (arith, eq_iff m "", place-some (suc n) ms x h (o, ne))

Chosen-Occurs : (hash : ℕ) (ps : List ℕ) (c : ℕ) → Chosen hash ps c → Occurs c ps
Chosen-Occurs hash ps c (inl (o, _, _)) = o
Chosen-Occurs hash ps c (inr (o, _, _)) = o

owner_from-sorted :
    (hash : ℕ) (ps : List ℕ) (ws : List (ℕ × String)) (q : ℕ)
    → Ordered ltb ps
    → Occurs q ps
    → ((q : ℕ) → Occurs q ps → Occurs q (map point_of ws))
    → (y : String) × (owner_from hash ps ws ≡ some y)
unfolding owner_from
owner_from-sorted hash [] ws q s o sub = absurd o
owner_from-sorted hash (p ∷ ps) ws q s o sub =
    let c = choose hash p (p ∷ ps) in
    let here = Chosen-Occurs hash (p ∷ ps) c (choose-Chosen hash p ps s) in
    elim (Option-cases (owner_at c ws)) [
      | inl e ↦ absurd (owner_at-total c ws (sub c here) e)
      | inr (y, e) ↦ (y, e)
    ]

owner_from-some :
    (hash : ℕ) (ws : List (ℕ × String))
    → ws ≢ []
    → (y : String) × (owner_from hash (sort_by ltb (map point_of ws)) ws ≡ some y)
owner_from-some hash [] n = absurd (n refl)
owner_from-some hash (w ∷ ws) n =
    let ps = map point_of (w ∷ ws) in
    owner_from-sorted hash (sort_by ltb ps) (w ∷ ws) (point_of w) (ltb-sorted ps)
      ((sort_by-Occurs ltb (point_of w) ps).1 (inl refl)) (λ q. (sort_by-Occurs ltb q ps).0)

-- Where replicas have virtual nodes and some replica has a name, every task has an owner, and it is
-- one of the replicas that have a name.
pub owner-total :
    (r : Ring) (members : List String) (x task_id : String)
    → 0 < r.replicas
    → IsMember members x
    → (y : String) × (owner (set_members r members) task_id ≡ some y) × IsMember members y
unfolding owner set_members
owner-total r members x task_id h m =
    let ws = place r.replicas members in
    let (y, e) = owner_from-some (checksum task_id) ws (place-some r.replicas members x h m) in
    let (c, ch, q) = owner_from-Chosen (checksum task_id) _ ws (ltb-sorted (map point_of ws)) e in
    (y, e, owner_at-All (IsMember members) c ws (place-All r.replicas members) q)
