-- ===== src/Witnesses/Accounts.antt =====
-- Runs of the service's calls: profiles, settings, configurations, mentions, repair and links.
use orbit_control.Prelude.{
  ℕ, String, true, false, ◌≡◌, ◌⊎◌, refl, none, some, List, [], ◌∷◌, map, lookup, insert, All,
  Occurs, if◌then◌else◌,
}
use orbit_control.Prelude.Int.{pos}
use orbit_control.Outcome.{idempotency_conflict, not_found, Result, ok, err}
use orbit_control.Text.{decimal}
use orbit_control.Text.Join.{nul_free}
use orbit_control.Value.{field, text, end, Fields, get, text_or_empty}
use orbit_control.Value.Same.{json_equal}
use orbit_control.Permissions.{UserSettings, default_user_settings}
use orbit_control.Config.{ConfigTeamMember, ConfigTeam, ConfigInput, view}
use orbit_control.Service.{Principal, Profile, ArtifactManifest, Service}
use orbit_control.Service.Tasks
use orbit_control.Service.Tasks.Create.{default_config}
use orbit_control.Service.Profiles.{versioned_ref, shelf, register_profile, get_profile}
use orbit_control.Service.Profiles.Versions.{register_profile-kept, register_profile-settled}
use orbit_control.Service.Settings.{user_settings, set_user_settings}
use orbit_control.Service.Settings.Own.{same_user, user_settings-set}
use orbit_control.Service.Configs.{with_member_names, task_config}
use orbit_control.Service.Mentions.{role_of, check_mentions}
use orbit_control.Service.Mentions.Clean.{Known, FirstUnknown, check_mentions-first}
use orbit_control.Service.Reconcile.{TaskView, reconcile, approval_set_equal}
use orbit_control.Service.Reconcile.Repaired.{healthy, reconcile-repaired}
use orbit_control.Service.Artifacts.{get_manifest, presign_artifact}
use orbit_control.Service.Artifacts.Signed.{OwnManifest, presign_artifact-own}
use orbit_control.Witnesses.Samples.{seen, alice, bob, task, service}
open seen use {Cache}

abbrev writer : Profile
writer = record {
  profile_id = "writer";
  version = pos 2;
  ref = "";
  spec = field "name" (text "Writer") end;
  created_at = 0;
  files = [];
}

abbrev stored_writer : Profile
stored_writer = record writer { ref = "writer@2"; created_at = 5 }

registered : (register_profile none service alice writer 5).1 ≡ ok stored_writer
unfolding register_profile versioned_ref lookup insert decimal
registered = refl

register_profile-settled_example :
    let s' = (register_profile none service alice writer 5).0 in
    (get_profile none s' alice (versioned_ref "writer" (pos 2)) ≡ ok stored_writer)
    × ((other : Profile) (later : ℕ)
        → other.profile_id ≡ "writer"
        → other.version ≡ pos 2
        → register_profile none s' alice other later ≡ (
          s',
          if json_equal stored_writer.spec other.spec
              then ok stored_writer
              else err idempotency_conflict,
        ))
register_profile-settled_example =
    register_profile-settled service alice writer stored_writer 5 registered

abbrev shelved : Service Cache
shelved = record service { profiles = ("a", ("writer@2", stored_writer) ∷ []) ∷ [] }

on_shelf : lookup "writer@2" (shelf shelved "a") ≡ some stored_writer
unfolding shelf lookup
on_shelf = refl

register_profile-kept_example :
    lookup "writer@2" (shelf (register_profile none shelved bob writer 9).0 "a")
    ≡ some stored_writer
register_profile-kept_example =
    register_profile-kept shelved bob writer 9 "a" "writer@2" stored_writer on_shelf

abbrev eager : UserSettings
eager = record default_user_settings { default_preset = "full" }

user_settings-set_example :
    user_settings none (set_user_settings none service alice eager).0 bob
    ≡ (if same_user alice bob then ok eager else user_settings none service bob)
unfolding nul_free
user_settings-set_example = user_settings-set service alice bob eager refl refl

abbrev lead : ConfigTeamMember
lead = record { role = "lead"; expert = "writer@2"; name = ""; description = ""; label = "" }

abbrev crew : ConfigTeam
crew = record { ref = "crew@1"; leader = "lead"; members = lead ∷ [] }

abbrev crewed : ConfigInput
crewed = record default_config { team = some crew }

abbrev unread : String → Result Profile
unread ref = err not_found

abbrev configured : Service Cache
configured = record service { configs = ("t1", record { version = pos 3; input = crewed }) ∷ [] }

shown :
    (task_config none none unread configured alice "t1").1
    ≡ ok (with_member_names unread (view crewed (pos 3)))
unfolding task_config Tasks.get lookup Tasks.owned_by
shown = refl

with_crew : (with_member_names unread (view crewed (pos 3))).team ≡ some crew
unfolding with_member_names view
with_crew = refl

abbrev mentions : List String
mentions = "lead" ∷ "nobody" ∷ []

check_mentions-first_example :
    (((check_mentions none none unread configured alice "t1" mentions).1 ≡ ok tt)
      × All (Known (map role_of crew.members)) mentions)
    ⊎ FirstUnknown
        (map role_of crew.members)
        0
        mentions
        (check_mentions none none unread configured alice "t1" mentions).1
check_mentions-first_example =
    check_mentions-first none none unread configured alice "t1" mentions
      (with_member_names unread (view crewed (pos 3))) crew shown with_crew

abbrev now_done : TaskView
now_done = record {
  status = "COMPLETED";
  plan_version = pos 2;
  budgets = end;
  usage = end;
  pending_approvals = "n1" ∷ [];
}

kept : lookup "t1" service.tasks ≡ some task
unfolding lookup
kept = refl

owned : Tasks.owned_by alice task ≡ true
unfolding Tasks.owned_by
owned = refl

reconcile-repaired_example :
    (reconcile
      (some (ok now_done))
      none
      none
      (reconcile (some (ok now_done)) none none service alice "t1" true 9).0
      alice
      "t1"
      false
      10).1
    ≡ ok (healthy "t1")
reconcile-repaired_example =
    reconcile-repaired service alice "t1" task now_done 9 10 kept owned refl

same_number_of_other_approvals : approval_set_equal ("x" ∷ "y" ∷ []) ("x" ∷ "x" ∷ []) ≡ true
unfolding approval_set_equal
same_number_of_other_approvals = refl

abbrev report : Fields
report = field "name" (text "report.md") end

abbrev manifest : ArtifactManifest
manifest = record {
  manifest_id = "m1";
  task_id = "t1";
  attempt_id = "a1";
  entries = report ∷ [];
  omitted = none;
  hash = "h";
  created_at = 1;
}

abbrev with_manifest : Service Cache
with_manifest = record service { manifests = ("m1", manifest) ∷ [] }

abbrev link_to : Principal → ArtifactManifest → Fields → Result String
link_to p m entry = ok "https://store/m1"

linked :
    (presign_artifact (some link_to) none with_manifest alice "m1" "report.md").1
    ≡ ok "https://store/m1"
unfolding presign_artifact get_manifest get Tasks.get lookup Tasks.owned_by
linked = refl

presign_artifact-own_example :
    (m : ArtifactManifest) × (entry : Fields) × OwnManifest with_manifest alice "m1" m
    × Occurs entry m.entries
    × (text_or_empty (get "name" entry) ≡ "report.md")
    × (link_to alice m entry ≡ ok "https://store/m1")
presign_artifact-own_example =
    presign_artifact-own with_manifest alice link_to "m1" "report.md" "https://store/m1" linked
