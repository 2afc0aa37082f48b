-- ===== src/Witnesses/Shelves.antt =====
-- Runs of the catalog store.
use orbit_control.Prelude.{
  ◌≤◌, ◌-◌, ◌*◌, take, drop, length, ℕ, String, true, false, ◌≡◌, ◌↔◌, ◌⊎◌, refl, none, List, [],
  ◌∷◌, lookup, ne_of_str_eq, Occurs, ◌≢◌, All, ◌==◌, if◌then◌else◌,
}
use orbit_control.Prelude.Int.{pos, pos_part}
use orbit_control.Outcome.{not_found, ok, err}
use orbit_control.Catalog.{
  PersonaRecord, McpConnectorRecord, SkillRecord, SkillCategoryRecord, SkillTextFilesRow, Store,
  new,
}
use orbit_control.Catalog.Rows.{shown}
use orbit_control.Catalog.Personas.{list_personas, create_persona, create_persona-isolated}
use orbit_control.Catalog.Skills.{
  SkillCatalogQuery, normalize_skill_query, list_skill_catalog, latest, get_skill, replace_skills,
}
use orbit_control.Catalog.Skills.Replaced.{CategoryName, replace_skills-get}
use orbit_control.Catalog.Skills.Page
use mathlib.Core.List.{Perm}
use orbit_control.Catalog.Loading.{LastOf}

abbrev t1 : String
t1 = "t1"

abbrev t2 : String
t2 = "t2"

abbrev writer : PersonaRecord
writer = record {
  id = "p1";
  name = "Writer";
  instructions = "write";
  mcp_connector_ids = "c1" ∷ [];
  created_at = 7;
}

nothing_stored : lookup writer.id new.personas ≡ none
unfolding lookup
nothing_stored = refl

create_persona-isolated_example :
    Occurs writer (shown (list_personas (create_persona new "t1" writer).0 "t2"))
    ↔ (((t1 ≡ t2) × (writer ≡ writer)) ⊎ Occurs writer (shown (list_personas new "t2")))
create_persona-isolated_example =
    create_persona-isolated new "t1" "t2" writer writer (ne_of_str_eq "t1" "" refl)
      (ne_of_str_eq "t2" "" refl) (ne_of_str_eq "p1" "" refl) nothing_stored

created : (create_persona new "t1" writer).1 ≡ ok tt
unfolding create_persona lookup
created = refl

abbrev files : McpConnectorRecord
files = record {
  id = "c1";
  name = "files";
  transport = "";
  command = "serve";
  args = [];
  env_refs = [];
  url = "";
  header_refs = [];
  default_open = true;
  created_at = 7;
}

no_connector : lookup files.id new.connectors ≡ none
unfolding lookup
no_connector = refl

abbrev seven : List ℕ
seven = 1 ∷ 2 ∷ 3 ∷ 4 ∷ 5 ∷ 6 ∷ 7 ∷ []

abbrev same : String → String
same s = s

abbrev skill : SkillRecord
skill = record {
  id = "@a/search";
  handle = "@a";
  slug = "search";
  name = "Search";
  description = "searches";
  description_en = "";
  category = "web";
  category_name = "";
  tags = [];
  license = "";
  icon_url = "";
  source_url = "";
  downloads = pos 3;
  visits = pos 0;
  likes = pos 1;
  updated_at = 4;
  source = "common";
  text_files = [];
  files_known = false;
  installed_at = 0;
}

abbrev skills : List SkillRecord
skills = skill ∷ record skill { id = "@a/read"; downloads = pos 9 } ∷ []

abbrev stocked : Store
stocked = (replace_skills new "t1" skills [] 100).0

abbrev query : SkillCatalogQuery
query = record {
  sort = "likes";
  category = "web";
  source = "";
  keyword = "sea";
  page = pos 0;
  page_size = pos 500;
}

abbrev batch : List SkillTextFilesRow
batch =
    record { id = "@a/read"; files = record { path = "SKILL.md"; body = "read" } ∷ [] }
    ∷ record { id = "@a/none"; files = [] }
    ∷ []

abbrev web : SkillCategoryRecord
web = record { key = "web"; name = "Web"; name_en = "Web"; sort_order = pos 1 }

replace_skills-get_example :
    let got = get_skill (replace_skills new "t1" skills (web ∷ []) 100).0 "t2" "@a/read" in
    ((row : SkillRecord) × (name : String) × LastOf (λ r. r.id) "@a/read" row skills
      × CategoryName (web ∷ []) new.skill_categories row name
      × (got
          ≡ ok (record row {
            installed_at = if row.installed_at == 0 then 100 else row.installed_at;
            category_name = name;
          })))
    ⊎ (All (λ r. r.id ≢ "@a/read") skills × (got ≡ err not_found))
replace_skills-get_example =
    replace_skills-get new "t1" "t2" "@a/read" skills (web ∷ []) 100 (ne_of_str_eq "t1" "" refl)
      (ne_of_str_eq "t2" "" refl) (ne_of_str_eq "@a/read" "" refl)

list_skill_catalog-page_example :
    let n = normalize_skill_query query in
    let size = pos_part n.page_size in
    (full : List SkillRecord) × Perm full (Page.found_in same n stocked)
    × Page.IsSort n.sort
    × Page.InOrder n.sort full
    × (1 ≤ size)
    × (size ≤ 48)
    × (list_skill_catalog same stocked "t1" query
        ≡ ok (record {
          items = take size (drop ((pos_part n.page - 1) * size) full);
          total = length full;
          page = n.page;
          page_size = n.page_size;
          installed_at = latest 0 stocked.skills;
        }))
list_skill_catalog-page_example =
    Page.list_skill_catalog-page same stocked "t1" query (ne_of_str_eq "t1" "" refl)
