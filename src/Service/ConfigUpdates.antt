-- ===== src/Service/ConfigUpdates.antt =====
-- internal/task/config.go: UpdateTaskConfig, a change of a task's configuration that is sent as a
-- command. `decode_result` is encoding/json on the stored result.
use orbit_control.Prelude.{ℕ, String, Option, none, some}
use orbit_control.Prelude.Int.{ℤ}
use orbit_control.Outcome.{encoding, Result, ok, err}
use orbit_control.Lru.{Lru}
use orbit_control.Value.{Value, object, Fields}
use orbit_control.Ledger.Interface.{CommandLedger}
use orbit_control.Config.{ConfigInput, normalized}
use orbit_control.Service.{Principal}
use orbit_control.Service.Configs.{ConfigUpdateResult, update_payload}
use orbit_control.Service.Commands.{Answers, Done, Server, update_checked}

module _ (L : Lru (Unit {0})) (time_of : Value → Option ℕ) (decode : String → Option Fields)
    (encode : ConfigUpdateResult → String) (G : CommandLedger)
    (request_hash : String → Value → String)
    (decode_result : String → Option ConfigUpdateResult) where
  abbrev Requests : Type 0
  Requests = Server L time_of decode encode G request_hash

  decoded : Option ConfigUpdateResult → Result ConfigUpdateResult
  decoded none = err encoding
  decoded (some r) = ok r

  answered : Requests × Done → Requests × Result ConfigUpdateResult
  unfolding decoded
  answered (server, done) =
      (server, elim done.answer [ err x ↦ err x | ok raw ↦ decoded (decode_result raw) ])

  send_config :
      Answers
      → Requests
      → Principal
      → String
      → String
      → ℤ
      → Result ConfigInput
      → Requests × Result ConfigUpdateResult
  unfolding answered
  send_config a server p id command_id base (err x) = (server, err x)
  send_config a server p id command_id base (ok in_) = answered (
      update_checked L time_of decode encode G request_hash (record a { check = none }) server p id
        "updateTaskConfig" command_id (object (update_payload command_id base in_)))

  -- UpdateTaskConfig
  unfoldable pub update_task_config :
      Answers
      → Requests
      → Principal
      → String
      → String
      → ℤ
      → ConfigInput
      → Requests × Result ConfigUpdateResult
  unfolding send_config
  update_task_config a server p id command_id base in_ =
      send_config a server p id command_id base (normalized in_)
