-- ===== src/Service/Artifacts/Signed.antt =====
-- A link is made only for what belongs to the caller.
use mathlib.Core.Path.{subst}
use mathlib.Core.Option.{some-injective}
use orbit_control.Prelude.{
  String, true, ◌≡◌, refl, ap, Option, none, some, List, [], ◌∷◌, lookup, str_eq, ◌∙◌, sym, arith,
  Bool-cases, inl, inr, Occurs, eq_of_str_eq,
}
use orbit_control.Outcome.{Result, ok, err}
use orbit_control.Value.{Fields, get, text_or_empty}
use orbit_control.Service.{Principal, Task, ArtifactManifest, Service}
use orbit_control.Service.Tasks
use orbit_control.Service.Tasks.{owned_by}
use orbit_control.Service.Artifacts.{
  entry_named, signed, get_manifest, manifest_found, with_task, presign_artifact, presign_found,
}

entry_named-some :
    (name : String) (entries : List Fields) (entry : Fields)
    → entry_named name entries ≡ some entry
    → Occurs entry entries × (text_or_empty (get "name" entry) ≡ name)
unfolding entry_named
entry_named-some name [] entry h = ground arith
entry_named-some name (e ∷ es) entry h =
    elim (Bool-cases (str_eq (text_or_empty (get "name" e)) name)) [
      | inl same ↦
          let found = some-injective e entry (rw same at h) in
          (
            inl (sym found),
            ap (λ x. text_or_empty (get "name" x)) (sym found) ∙ eq_of_str_eq _ _ same,
          )
      | inr other ↦
          let (later, named) = entry_named-some name es entry (rw other at h) in (inr later, named)
    ]

module _ {Seen : Type 0} (s : Service Seen) (p : Principal) where
  -- a manifest that is kept, of a task that the caller created
  abbrev pub OwnManifest : String → ArtifactManifest → Type 0
  OwnManifest id m =
      (t : Task) × (lookup id s.manifests ≡ some m)
      × (lookup m.task_id s.tasks ≡ some t)
      × (owned_by p t ≡ true)

  get_local-owned :
      (found : Option Task) (u : Task)
      → Tasks.get_local p found ≡ ok u
      → (t : Task) × (found ≡ some t) × (owned_by p t ≡ true)
  unfolding Tasks.get_local
  get_local-owned none u h = ground arith
  get_local-owned (some t) u h = (t, refl, ground arith)

  with_task-ok :
      (got : Service Seen × Result Task) (m n : ArtifactManifest)
      → (with_task got m).1 ≡ ok n
      → (u : Task) × (got.1 ≡ ok u) × (m ≡ n)
  unfolding with_task
  with_task-ok (s', err x) m n h = ground arith
  with_task-ok (s', ok u) m n h = (u, refl, ground arith)

  manifest_found-own :
      (id : String) (found : Option ArtifactManifest) (m : ArtifactManifest)
      → lookup id s.manifests ≡ found
      → (manifest_found found s p).1 ≡ ok m
      → OwnManifest id m
  unfolding manifest_found Tasks.get
  manifest_found-own id none m p' h = ground arith
  manifest_found-own id (some n) m p' h =
      let (u, got, same) = with_task-ok (Tasks.get none s p n.task_id) n m h in
      let (t, held, owned) = get_local-owned (lookup n.task_id s.tasks) u got in
      subst (OwnManifest id) same (t, p', held, owned)

  get_manifest-own :
      (id : String) (m : ArtifactManifest) → (get_manifest none s p id).1 ≡ ok m → OwnManifest id m
  unfolding get_manifest
  get_manifest-own id m h = manifest_found-own id (lookup id s.manifests) m refl h

  presign_found-ok :
      (sign : Principal → ArtifactManifest → Fields → Result String)
      (got : Service Seen × Result ArtifactManifest) (name link : String)
      → (presign_found sign got p name).1 ≡ ok link
      → (m : ArtifactManifest) × (got.1 ≡ ok m)
        × (signed sign p m (entry_named name m.entries) ≡ ok link)
  unfolding presign_found
  presign_found-ok sign (s', err x) name link h = ground arith
  presign_found-ok sign (s', ok m) name link h = (m, refl, h)

  signed-ok :
      (sign : Principal → ArtifactManifest → Fields → Result String) (m : ArtifactManifest)
      (found : Option Fields) (link : String)
      → signed sign p m found ≡ ok link
      → (entry : Fields) × (found ≡ some entry) × (sign p m entry ≡ ok link)
  unfolding signed
  signed-ok sign m none link h = ground arith
  signed-ok sign m (some entry) link h = (entry, refl, h)

  -- Where there is no store, a link to an artifact is what the signer gives for an entry with the name
  -- that was asked for, in the manifest that was asked for, of a task that the caller created.
  pub presign_artifact-own :
      (sign : Principal → ArtifactManifest → Fields → Result String) (id name link : String)
      → (presign_artifact (some sign) none s p id name).1 ≡ ok link
      → (m : ArtifactManifest) × (entry : Fields) × OwnManifest id m
        × Occurs entry m.entries
        × (text_or_empty (get "name" entry) ≡ name)
        × (sign p m entry ≡ ok link)
  unfolding presign_artifact
  presign_artifact-own sign id name link h =
      let (m, got, made) = presign_found-ok sign (get_manifest none s p id) name link h in
      let (entry, found, link_) = signed-ok sign m (entry_named name m.entries) link made in
      let (in_, named) = entry_named-some name m.entries entry found in
      (m, entry, get_manifest-own id m got, in_, named, link_)
