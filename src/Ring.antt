-- ===== src/Ring.antt =====
-- internal/task/routing.go: the consistent-hash ring that routes a task to one control replica. The
-- mutex makes each method one step. `SetMembers` writes one point after another; `placements` are
-- those writes in their order, and a later write to a point takes it over.
pub mod Choice
pub mod Routes
pub mod Stable
use Prim.Native.Nat.{bit_xor}
use Prim.Native.Char.{Char, code}
use Prim.Native.String
use orbit_control.Prelude.{
  ℕ, zero, suc, ◌+◌, ◌-◌, ◌/◌, ◌%◌, String, Bool, true, false, ◌≡◌, refl, Option, none, some, List,
  [], ◌∷◌, ◌++◌, map, ltb, leb, ◌==◌, str_eq, if◌then◌else◌,
}
use orbit_control.Prelude.Int.{ℤ, pos, negsuc, ltb_ℤ, pos_part}
use orbit_control.Prelude.Sort.{sort_by}
use orbit_control.Text.{◌⧺◌, decimal}

-- The UTF-8 bytes of a code point.
utf8 : ℕ → List ℕ
utf8 c =
    if ltb c 0x80
    then c ∷ []
    else if ltb c 0x800
    then (0xC0 + c / 0x40) ∷ (0x80 + c % 0x40) ∷ []
    else if ltb c 0x10000
    then (0xE0 + c / 0x1000) ∷ (0x80 + c / 0x40 % 0x40) ∷ (0x80 + c % 0x40) ∷ []
    else (0xF0 + c / 0x40000)
      ∷ (0x80 + c / 0x1000 % 0x40)
      ∷ (0x80 + c / 0x40 % 0x40)
      ∷ (0x80 + c % 0x40)
      ∷ []

bytes : String → List ℕ
unfolding utf8
bytes String.[] = []
bytes (String.◌∷◌ c s) = utf8 (code c) ++ bytes s

-- Eight rounds of the reflected polynomial of IEEE's CRC-32.
crc_bits : ℕ → ℕ → ℕ
crc_bits zero c = c
crc_bits (suc n) c = crc_bits n (if c % 2 == 1 then bit_xor (c / 2) 0xEDB88320 else c / 2)

crc_bytes : ℕ → List ℕ → ℕ
unfolding crc_bits
crc_bytes c [] = c
crc_bytes c (b ∷ bs) = crc_bytes (crc_bits 8 (bit_xor c b)) bs

-- crc32.ChecksumIEEE
unfoldable pub checksum : String → ℕ
unfolding bytes crc_bytes
checksum s = bit_xor (crc_bytes 0xFFFFFFFF (bytes s)) 0xFFFFFFFF

pub record Ring : Type 0 where
  pub points : List ℕ
  pub placements : List (ℕ × String)
  pub replicas : ℕ

unfoldable pub new_ring : ℤ → Ring
new_ring replicas = record {
  points = [];
  placements = [];
  replicas = if ltb_ℤ replicas (pos 1) then 64 else pos_part replicas;
}

-- The inner loop: the points of `count` virtual nodes from the number `replica` on.
unfoldable pub member_points : String → ℕ → ℕ → List (ℕ × String)
member_points member replica zero = []
member_points member replica (suc count) =
    (checksum (member ⧺ "#" ⧺ decimal replica), member) ∷ member_points member (replica + 1) count

-- The outer loop; an empty name is skipped.
unfoldable pub place : ℕ → List String → List (ℕ × String)
place replicas [] = []
place replicas (member ∷ members) =
    let rest = place replicas members in
    if str_eq member "" then rest else member_points member 0 replicas ++ rest

abbrev pub point_of : ℕ × String → ℕ
point_of (point, member) = point

unfoldable pub set_members : Ring → List String → Ring
set_members r members =
    let placements = place r.replicas members in
    record r { points = sort_by ltb (map point_of placements); placements = placements }

-- r.owners[point]: what the last write to the point put there
unfoldable pub owner_at : ℕ → List (ℕ × String) → Option String
owner_at point [] = none
owner_at point ((p, member) ∷ ps) = elim (owner_at point ps) [
  | some later ↦ some later
  | none ↦ if p == point then some member else none
]

-- The first of the sorted points that is at least the hash, `first` if there is none: what
-- `sort.Search` finds, with the index wrapped to 0.
unfoldable pub choose : ℕ → ℕ → List ℕ → ℕ
choose hash first [] = first
choose hash first (p ∷ ps) = let rest = choose hash first ps in if leb hash p then p else rest

-- The owner, `none` for an empty ring.
pub owner_from : ℕ → List ℕ → List (ℕ × String) → Option String
owner_from hash [] placements = none
owner_from hash (p ∷ ps) placements = owner_at (choose hash p (p ∷ ps)) placements

unfoldable pub owner : Ring → String → Option String
unfolding owner_from
owner r task_id = owner_from (checksum task_id) r.points r.placements
