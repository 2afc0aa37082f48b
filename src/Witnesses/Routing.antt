-- ===== src/Witnesses/Routing.antt =====
-- Runs of the ring, and of the cycle check of procedures.
use orbit_control.Prelude.{
  ℕ, ◌≤◌, String, false, ◌≡◌, ne_of_str_eq, none, All, length, map, lookup, insert, refl, some,
  List, [], ◌∷◌,
}
use orbit_control.Prelude.Sort.{sort_by}
use orbit_control.Text.{decimal, trim_space}
use orbit_control.Ring.{Ring, owner, set_members, checksum, place, member_points, owner_at, choose}
use orbit_control.Ring.Stable.{leave, leave-owner}
use orbit_control.Prelude.Int.{pos, ◌+ℤ◌}
use orbit_control.Outcome.{Result, ok, err}
use orbit_control.Sop.{
  SopStep, Sop, step_name, normalize_from, normalize_step, validate_sop_step, normalize_sop_steps,
  node_of, validate_sop,
}
use orbit_control.Sop.Patterns.{is_step_id, is_versioned_id}
use orbit_control.Sop.Valid.{Unique, IsSound, id_of, validate_sop-ok}
use orbit_control.Sop.Cycle.{has_cycle, Node, ordered_count, ordered_count-total}

abbrev ring : Ring
ring = record { points = []; placements = []; replicas = 2 }

abbrev replicas : List String
replicas = "r1" ∷ "r2" ∷ []

abbrev two : Ring
two = set_members ring replicas

routed : owner (set_members ring replicas) "task" ≡ some "r1"
unfolding owner set_members sort_by place member_points checksum decimal owner_at choose
routed = refl

leave-owner_example : owner (set_members ring (leave "r2" replicas)) "task" ≡ some "r1"
leave-owner_example =
    leave-owner ring replicas "r2" "r1" "task" (ne_of_str_eq "r1" "r2" refl) routed

abbrev cycle : List Node
cycle =
    record { id = "s1"; depends_on = "s2" ∷ [] } ∷ record { id = "s2"; depends_on = "s1" ∷ [] } ∷ []

ordered_count-total_example : (done : ℕ) × (ordered_count cycle ≡ some done)
ordered_count-total_example = ordered_count-total cycle

abbrev step : SopStep
step = record {
  id = "";
  subject = " Draft ";
  description = "";
  max_attempts = pos 0;
  executor = "writer@2";
  verifier = none;
  depends_on = none;
  output_schema_ref = "";
  required_artifacts = [];
  human_approval = "after";
}

abbrev procedure : Sop
procedure = record {
  sop_id = "sop_1";
  version = pos 1;
  ref = "sop_1@1";
  name = "";
  description = "";
  steps = step ∷ record step { id = "review"; subject = "Review" } ∷ [];
  created_at = 1;
}

abbrev valid_of : Result Sop → Sop → Sop
valid_of (ok sop) _ = sop
valid_of (err x) sop = sop

abbrev checked : Sop
checked = valid_of (validate_sop procedure) procedure

passes : validate_sop procedure ≡ ok checked
unfolding validate_sop trim_space is_step_id is_versioned_id has_cycle step_name decimal
    normalize_sop_steps normalize_from normalize_step validate_sop_step lookup insert ◌+ℤ◌
passes = refl

validate_sop-ok_example :
    (checked.steps ≡ normalize_sop_steps procedure.steps)
    × (1 ≤ length checked.steps)
    × (length checked.steps ≤ 50)
    × Unique [] checked.steps
    × All (IsSound (map id_of checked.steps)) checked.steps
    × (has_cycle (map node_of checked.steps) ≡ false)
validate_sop-ok_example = validate_sop-ok procedure checked passes

-- the check value of CRC-32
checksum_runs : checksum "123456789" ≡ 0xCBF43926
unfolding checksum
checksum_runs = refl
