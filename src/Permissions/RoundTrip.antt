-- ===== src/Permissions/RoundTrip.antt =====
-- The permissions that a workflow is handed are read back as they were.
use orbit_control.Prelude.{◌≡◌, Option, none, some, arith, refl}
use orbit_control.Value.{put, get}
use orbit_control.Permissions.{Permissions, workflow_value, permissions_from_workflow}

-- Reading the workflow's value of any spec, nil included, gives the spec back: every rule that was
-- stated, with its value, and none that was not.
pub permissions-roundtrip :
    (p : Option Permissions) → permissions_from_workflow (some (workflow_value p)) ≡ p
unfolding workflow_value permissions_from_workflow put get
permissions-roundtrip none = refl
permissions-roundtrip (some p) = ground arith
