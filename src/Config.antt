-- ===== src/Config.antt =====
-- internal/task/config.go: what a task runs with, as the workflow has it and as a reader sees it.
-- A nil slice is `none` and an empty one `some []`: the difference is the code's reason for building
-- the payloads by hand. A configuration version is Go's int.
pub mod RoundTrip
use orbit_control.Prelude.{
  String, Bool, true, false, ◌||◌, Option, none, some, List, [], ◌∷◌, map, if◌then◌else◌, str_eq,
}
use orbit_control.Prelude.Int.{ℤ, pos}
use orbit_control.Outcome.{Result, ok, err, invalid}
use orbit_control.Value.{
  Value, null, text, number, list, object, Values, nil, cons, Fields, end, field, get, put, as_text,
  as_number, as_list, text_or_empty,
}
use orbit_control.Permissions.{Permissions, workflow_value, permissions_from_workflow, or_default}

pub record ConfigTeamMember : Type 0 where
  pub role : String
  pub expert : String
  pub name : String
  pub description : String
  pub label : String

pub record ConfigTeam : Type 0 where
  pub ref : String
  pub leader : String
  pub members : List ConfigTeamMember

pub record ConfigInput : Type 0 where
  pub expert : String
  pub skills : Option (List String)
  pub model : String
  pub connectors : Option (List Fields)
  pub mode : String
  pub permissions : Option Permissions
  pub team : Option ConfigTeam

pub record ConfigView : Type 0 where
  pub version : ℤ
  pub expert : Option String
  pub skills : Option (List String)
  pub connector_ids : Option (List String)
  pub mode : String
  pub model : String
  pub team : Option ConfigTeam
  pub team_ref : String
  pub permissions : Permissions

-- `if s != "" { out[key] = s }`
abbrev put_nonempty : String → String → Fields → Fields
put_nonempty key s out = if str_eq s "" then out else put key (text s) out

abbrev pub member_entry : ConfigTeamMember → Fields
member_entry m = put_nonempty "label" m.label (
    put_nonempty "description" m.description
      (field "role" (text m.role) (field "expert" (text m.expert) end)))

abbrev pub member_values : List ConfigTeamMember → Values
member_values [] = nil
member_values (m ∷ ms) = cons (object (member_entry m)) (member_values ms)

pub workflow_team : Option ConfigTeam → Value
workflow_team none = null
workflow_team (some t) = object (
    put_nonempty "ref" t.ref
      (field "leader" (text t.leader) (field "members" (list (member_values t.members)) end)))

-- `entry, _ := item.(map[string]any)`: no fields if the item is no object
abbrev pub entry_of : Value → Fields
entry_of (object fs) = fs
entry_of _ = end

abbrev pub member_of : Value → ConfigTeamMember
member_of item = record {
  role = text_or_empty (get "role" (entry_of item));
  expert = text_or_empty (get "expert" (entry_of item));
  name = "";
  description = text_or_empty (get "description" (entry_of item));
  label = text_or_empty (get "label" (entry_of item));
}

abbrev pub members_of : Values → List ConfigTeamMember
members_of nil = []
members_of (cons v vs) = member_of v ∷ members_of vs

abbrev or_nil : Option Values → Values
or_nil none = nil
or_nil (some vs) = vs

pub team_from_workflow : Option Value → Option ConfigTeam
team_from_workflow (some (object fields)) = some (record {
  ref = text_or_empty (get "ref" fields);
  leader = text_or_empty (get "leader" fields);
  members = members_of (or_nil (as_list (get "members" fields)));
})
team_from_workflow _ = none

unfoldable pub normalized : ConfigInput → Result ConfigInput
normalized c =
    let mode = if str_eq c.mode "" then "default" else c.mode in
    if str_eq mode "default" || str_eq mode "plan" || str_eq mode "ask"
    then ok (record c { mode = mode })
    else err (invalid "mode must be default, plan or ask")

abbrev pub text_values : List String → Values
text_values [] = nil
text_values (s ∷ ss) = cons (text s) (text_values ss)

abbrev pub object_values : List Fields → Values
object_values [] = nil
object_values (fs ∷ fss) = cons (object fs) (object_values fss)

abbrev pub put_set : {A : Type 0} → (A → Value) → String → Option A → Fields → Fields
put_set f key none out = out
put_set f key (some a) out = put key (f a) out

pub workflow_config : ConfigInput → ℤ → Fields
workflow_config c version =
    put_set (λ p. workflow_value (some p)) "permissions" c.permissions
      (put_set (λ cs. list (object_values cs)) "connectors" c.connectors
        (put_set (λ ss. list (text_values ss)) "skills" c.skills
          (put_nonempty "expert" c.expert (
            field "config_version" (number version) (
              field "mode" (text c.mode) (
                field "model" (text c.model) (
                  field "skills" null (
                    field "connectors" null
                      (field "expert" null (field "team" (workflow_team c.team) end))))))))))

abbrev pub connector_id : Fields → String
connector_id snapshot = text_or_empty (get "id" snapshot)

abbrev pub option_map : {A B : Type 0} → (A → B) → Option A → Option B
option_map f none = none
option_map f (some a) = some (f a)

abbrev pub nonempty : String → Option String
nonempty s = if str_eq s "" then none else some s

abbrev team_ref_of : Option ConfigTeam → String
team_ref_of none = ""
team_ref_of (some t) = t.ref

unfoldable pub view : ConfigInput → ℤ → ConfigView
view c version = record {
  version = version;
  expert = nonempty c.expert;
  skills = c.skills;
  connector_ids = option_map (map connector_id) c.connectors;
  mode = c.mode;
  model = c.model;
  team = c.team;
  team_ref = team_ref_of c.team;
  permissions = or_default c.permissions;
}

-- `fmt.Sprint(item)` of a skill: the lists that a workflow holds are of texts.
abbrev pub texts_of : Values → List String
texts_of nil = []
texts_of (cons v vs) = text_or_empty (some v) ∷ texts_of vs

abbrev pub ids_of : Values → List String
ids_of nil = []
ids_of (cons v vs) = connector_id (entry_of v) ∷ ids_of vs

abbrev or_one : Option ℤ → ℤ
or_one none = pos 1
or_one (some n) = n

abbrev or_default_mode : Option String → String
or_default_mode none = "default"
or_default_mode (some s) = if str_eq s "" then "default" else s

abbrev nonempty_text : Option String → Option String
nonempty_text none = none
nonempty_text (some s) = nonempty s

pub config_from_workflow : Fields → ConfigView
config_from_workflow raw =
    let team = team_from_workflow (get "team" raw) in
    record {
      version = or_one (as_number (get "config_version" raw));
      expert = nonempty_text (as_text (get "expert" raw));
      skills = option_map texts_of (as_list (get "skills" raw));
      connector_ids = option_map ids_of (as_list (get "connectors" raw));
      mode = or_default_mode (as_text (get "mode" raw));
      model = text_or_empty (get "model" raw);
      team = team;
      team_ref = team_ref_of team;
      permissions = or_default (permissions_from_workflow (get "permissions" raw));
    }
