-- ===== src/Service/Artifacts.antt =====
-- internal/task/artifacts.go: reading the artifact manifests of a task, and links to their entries.
-- What the store and the signer answer are arguments, `none` where the service has none.
pub mod Signed
use orbit_control.Prelude.{
  ℕ, String, Option, none, some, List, [], ◌∷◌, Assoc, lookup, str_eq, if◌then◌else◌,
}
use orbit_control.Outcome.{Error, not_found, invalid, Result, ok, err}
use orbit_control.Value.{Value, Fields, get, text_or_empty}
use orbit_control.Service.{Principal, Task, ArtifactManifest, Service}
use orbit_control.Service.Tasks
use orbit_control.Service.Tasks.{owned_by}

-- The loop of `Manifests`; Go visits the entries in no fixed order.
of_task : String → Assoc ArtifactManifest → List ArtifactManifest
of_task id [] = []
of_task id ((key, m) ∷ ms) =
    let rest = of_task id ms in if str_eq m.task_id id then m ∷ rest else rest

-- The first entry with the name.
entry_named : String → List Fields → Option Fields
entry_named name [] = none
entry_named name (entry ∷ entries) =
    let rest = entry_named name entries in
    if str_eq (text_or_empty (get "name" entry)) name then some entry else rest

signed :
    (Principal → ArtifactManifest → Fields → Result String)
    → Principal
    → ArtifactManifest
    → Option Fields
    → Result String
signed sign p m none = err not_found
signed sign p m (some entry) = sign p m entry

module _ {Seen : Type 0} where
  manifests_found :
      Option (Result (List ArtifactManifest))
      → Service Seen × Result Task
      → String
      → Service Seen × Result (List ArtifactManifest)
  unfolding of_task
  manifests_found stored (s, err x) id = (s, err x)
  manifests_found (some answer) (s, ok t) id = (s, answer)
  manifests_found none (s, ok t) id = (s, ok (of_task id s.manifests))

  -- Manifests
  unfoldable pub manifests :
      Option (Result Task)
      → Option (Result (List ArtifactManifest))
      → Service Seen
      → Principal
      → String
      → Service Seen × Result (List ArtifactManifest)
  unfolding manifests_found
  manifests found stored s p id = manifests_found stored (Tasks.get found s p id) id

  with_task : Service Seen × Result Task → ArtifactManifest → Service Seen × Result ArtifactManifest
  with_task (s, err x) m = (s, err x)
  with_task (s, ok t) m = (s, ok m)

  manifest_found :
      Option ArtifactManifest → Service Seen → Principal → Service Seen × Result ArtifactManifest
  unfolding with_task
  manifest_found none s p = (s, err not_found)
  manifest_found (some m) s p = with_task (Tasks.get none s p m.task_id) m

  -- GetManifest
  unfoldable pub get_manifest :
      Option (Result ArtifactManifest)
      → Service Seen
      → Principal
      → String
      → Service Seen × Result ArtifactManifest
  unfolding manifest_found
  get_manifest (some answer) s p id = (s, answer)
  get_manifest none s p id = manifest_found (lookup id s.manifests) s p

  presign_found :
      (Principal → ArtifactManifest → Fields → Result String)
      → Service Seen × Result ArtifactManifest
      → Principal
      → String
      → Service Seen × Result String
  unfolding signed entry_named
  presign_found sign (s, err x) p name = (s, err x)
  presign_found sign (s, ok m) p name = (s, signed sign p m (entry_named name m.entries))

  -- PresignArtifact
  unfoldable pub presign_artifact :
      Option (Principal → ArtifactManifest → Fields → Result String)
      → Option (Result ArtifactManifest)
      → Service Seen
      → Principal
      → String
      → String
      → Service Seen × Result String
  unfolding presign_found
  presign_artifact none stored s p id name = (s, err (invalid "artifact storage is not configured"))
  presign_artifact (some sign) stored s p id name =
      presign_found sign (get_manifest stored s p id) p name
