-- ===== src/Witnesses/Samples.antt =====
-- Data that the runs share: a service with one task, its owner and another user of the tenant.
use orbit_control.Prelude.{ℕ, Option, none, some, [], ◌∷◌}
use orbit_control.Prelude.Int.{pos}
use orbit_control.Lru.{Lru, newest_first}
use orbit_control.Value.{Value, end}
use orbit_control.Policy.{Policy}
use orbit_control.Service.{Principal, Task, Service}

abbrev pub seen : Lru (Unit {0})
seen = newest_first 7

open seen use {Cache}

abbrev pub no_time : Value → Option ℕ
no_time value = some 0

abbrev pub alice : Principal
alice = record { tenant_id = "a"; user_id = "alice" }

abbrev pub bob : Principal
bob = record { tenant_id = "a"; user_id = "bob" }

abbrev pub own_limits : Policy
own_limits = record {
  denied_tools = none;
  exploration_max_tool_calls = none;
  max_concurrency = some (pos 8);
  max_review_rounds = none;
}

abbrev pub task : Task
task = record {
  id = "t1";
  tenant_id = "a";
  workflow_id = "task/a/t1";
  title = "T";
  goal = "G";
  mode = "single";
  status = "RUNNING";
  profile = "default@1";
  plan_version = pos 0;
  created_by = "alice";
  created_at = 1;
  updated_at = 1;
  budgets = end;
  usage = end;
  pending_approvals = [];
  policy = own_limits;
}

abbrev pub service : Service Cache
service = record {
  tasks = ("t1", task) ∷ [];
  events = [];
  subs = [];
  seen_message = [];
  next_seq = [];
  seen_events = [];
  entity_version = [];
  profiles = [];
  configs = [];
  user_settings = [];
  manifests = [];
  max_events = 5000;
}
