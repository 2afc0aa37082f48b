-- ===== src/Service/Configs/Replaced.antt =====
-- A configuration that was replaced without an orchestrator is what a reader then sees.
use orbit_control.Prelude.{String, false, ◌≡◌, refl, Option, none, some, arith, lookup}
use orbit_control.Prelude.Int.{ℤ, eqb_ℤ}
use orbit_control.Outcome.{config_conflict, err}
use orbit_control.Value.{Value, number, get}
use orbit_control.Config.{ConfigInput}
use orbit_control.Config.RoundTrip.{without_names}
use orbit_control.Service.{Service}
use orbit_control.Service.Tasks
use orbit_control.Service.Configs.{
  current_version, update_payload, run_config_update, apply_local_config, update_result,
}

-- the configuration, as a payload carries it
abbrev pub sent : ConfigInput → ConfigInput
sent input = record input { team = without_names input.team }

abbrev or_blank : Option String → String
or_blank none = ""
or_blank (some s) = s

module _ (command_id : String) (base : ℤ) (input : ConfigInput) where
  get-base : get "base_config_version" (update_payload command_id base input) ≡ some (number base)
  unfolding update_payload get
  get-base = ground arith

module _ {Seen : Type 0} (s : Service Seen) (id command_id : String) (input : ConfigInput) where
  -- A change that builds on another version than the current one is refused with a conflict, and
  -- nothing is changed.
  pub run_config_update-stale :
      (base : ℤ)
      → eqb_ℤ base (current_version (lookup id s.configs)) ≡ false
      → run_config_update none s id (update_payload command_id base input)
        ≡ (s, err config_conflict)
  unfolding run_config_update apply_local_config update_result
  run_config_update-stale base h = rw (get-base command_id base input, h) refl
