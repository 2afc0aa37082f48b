-- ===== src/Catalog/Skills.antt =====
-- internal/store/memstore/skills.go: the snapshot of the skills catalog. `lower` is
-- strings.ToLower; `now` is what the clock answers.
pub mod Snapshot
pub mod Replaced
pub mod Page
use orbit_control.Prelude.{
  ℕ, ◌+◌, ◌-◌, ◌*◌, String, Bool, true, false, not, ◌&&◌, ◌||◌, Option, none, some, List, [], ◌∷◌,
  Assoc, lookup, insert, ltb, leb, ◌==◌, str_eq, if◌then◌else◌, length, take, drop,
}
use orbit_control.Prelude.Int.{ℤ, pos, ltb_ℤ, eqb_ℤ}
use orbit_control.Prelude.Sort.{sort_by}
use orbit_control.Text.Order.{less_text, contains_text}
use orbit_control.Outcome.{Error, not_found, Result, ok, err}
use orbit_control.Catalog.{
  SkillRecord, SkillFile, SkillTextFilesRow, SkillCategoryRecord, Store, for_tenant,
}
use orbit_control.Catalog.Loading.{put_all}
use orbit_control.Catalog.Query.{
  clip_text, clip_token, source_word, clamp, descending, later, page_items,
}

pub record SkillCatalogQuery : Type 0 where
  pub sort : String
  pub category : String
  pub source : String
  pub keyword : String
  pub page : ℤ
  pub page_size : ℤ

pub record SkillCatalogPage : Type 0 where
  pub items : List SkillRecord
  pub total : ℕ
  pub page : ℤ
  pub page_size : ℤ
  pub installed_at : ℕ

pub normalize_skill_query : SkillCatalogQuery → SkillCatalogQuery
normalize_skill_query q = record {
  sort =
      if str_eq q.sort "downloads" || str_eq q.sort "updated_at" || str_eq q.sort "likes"
      then q.sort
      else "downloads";
  category = clip_token q.category 64;
  source = source_word q.source;
  keyword = clip_text q.keyword 80;
  page = clamp (pos 1) (pos 10000) q.page;
  page_size = clamp (pos 24) (pos 48) q.page_size;
}

-- The cases of the sort: by the time of the update, by likes, by downloads.
pub less_by : Bool → Bool → SkillRecord → SkillRecord → Bool
less_by true by_count a b = later a.updated_at b.updated_at (less_text a.id b.id)
less_by false true a b = descending a.likes b.likes (less_text a.id b.id)
less_by false false a b = descending a.downloads b.downloads (less_text a.id b.id)

pub skill_less : String → SkillRecord → SkillRecord → Bool
unfolding less_by
skill_less sort_by a b = less_by (str_eq sort_by "updated_at") (str_eq sort_by "likes") a b

module _ (lower : String → String) where
  pub skill_visible : SkillRecord → SkillCatalogQuery → Bool
  skill_visible rec q =
      if not (str_eq q.category "") && not (str_eq rec.category q.category)
      then false
      else if not (str_eq q.source "") && not (str_eq rec.source q.source)
      then false
      else if not (str_eq q.keyword "")
      then contains_text (lower rec.name) (lower q.keyword)
        || contains_text (lower rec.description) (lower q.keyword)
        || contains_text (lower rec.description_en) (lower q.keyword)
      else true

-- The category's name, if it is known.
category_name : Option SkillCategoryRecord → String
category_name none = ""
category_name (some cat) = cat.name

unfoldable pub named : Assoc SkillCategoryRecord → SkillRecord → SkillRecord
unfolding category_name
named categories rec = record rec { category_name = category_name (lookup rec.category categories) }

-- The loop of `ListSkillCatalog` over the skills: those that match.
module _ (lower : String → String) (categories : Assoc SkillCategoryRecord)
    (q : SkillCatalogQuery) where
  unfoldable pub matched : Assoc SkillRecord → List SkillRecord
  matched [] = []
  matched ((key, rec) ∷ skills) =
      let rest = matched skills in
      if skill_visible lower rec q then named categories rec ∷ rest else rest

-- ... and the latest install time.
unfoldable pub latest : ℕ → Assoc SkillRecord → ℕ
latest installed [] = installed
latest installed ((key, rec) ∷ skills) =
    latest (if ltb installed rec.installed_at then rec.installed_at else installed) skills

module _ (lower : String → String) where
  pub list_skill_catalog : Store → String → SkillCatalogQuery → Result SkillCatalogPage
  list_skill_catalog s tenant_id query =
      let q = normalize_skill_query query in
      let found = sort_by (skill_less q.sort) (matched lower s.skill_categories q s.skills) in
      for_tenant tenant_id (
        ok (record {
          items = page_items q.page q.page_size found;
          total = length found;
          page = q.page;
          page_size = q.page_size;
          installed_at = latest 0 s.skills;
        }))

-- `GetSkill`'s answer for what the map holds: the stored name of the category stays where the
-- category is unknown.
pub with_category : Assoc SkillCategoryRecord → SkillRecord → SkillRecord
with_category categories rec = elim (lookup rec.category categories) [
  | none ↦ rec
  | some cat ↦ record rec { category_name = cat.name }
]

pub answer : Assoc SkillCategoryRecord → Option SkillRecord → Result SkillRecord
answer categories none = err not_found
answer categories (some rec) = ok (with_category categories rec)

pub get_skill : Store → String → String → Result SkillRecord
unfolding answer with_category
get_skill s tenant_id id =
    if str_eq tenant_id "" || str_eq id ""
    then err not_found
    else answer s.skill_categories (lookup id s.skills)

-- The files and whether they are known.
pub files_of : Option SkillRecord → Result (List SkillFile × Bool)
files_of none = err not_found
files_of (some rec) = if not rec.files_known then ok ([], false) else ok (rec.text_files, true)

pub get_skill_text_files : Store → String → String → Result (List SkillFile × Bool)
unfolding files_of
get_skill_text_files s tenant_id id =
    if str_eq tenant_id "" || str_eq id "" then err not_found else files_of (lookup id s.skills)

save_row : SkillTextFilesRow → Option SkillRecord → Assoc SkillRecord → Assoc SkillRecord
save_row row none skills = skills
save_row row (some rec) skills =
    insert row.id (record rec { text_files = row.files; files_known = true }) skills

pub save_rows : List SkillTextFilesRow → Assoc SkillRecord → Assoc SkillRecord
unfolding save_row
save_rows [] skills = skills
save_rows (row ∷ rows) skills = save_rows rows (save_row row (lookup row.id skills) skills)

pub save_skill_text_files_batch :
    Store → String → List SkillTextFilesRow → Store × Result (Unit {0})
save_skill_text_files_batch s tenant_id rows =
    if str_eq tenant_id ""
    then (s, err not_found)
    else (record s { skills = save_rows rows s.skills }, ok tt)

abbrev pub installed : ℕ → SkillRecord → SkillRecord
installed now row = record row {
  installed_at = if row.installed_at == 0 then now else row.installed_at;
}

abbrev pub skill_entry : ℕ → SkillRecord → Option (String × SkillRecord)
skill_entry now row = if str_eq row.id "" then none else some (row.id, installed now row)

abbrev pub category_entry : SkillCategoryRecord → Option (String × SkillCategoryRecord)
category_entry row = if str_eq row.key "" then none else some (row.key, row)

pub replace_skills :
    Store → String → List SkillRecord → List SkillCategoryRecord → ℕ → Store × Result (Unit {0})
replace_skills s tenant_id rows categories now =
    if str_eq tenant_id "" then (s, err not_found) else (
      record s {
        skills = put_all (skill_entry now) rows [];
        skill_categories = put_all category_entry categories s.skill_categories;
      },
      ok tt,
    )

unfoldable pub category_less : SkillCategoryRecord → SkillCategoryRecord → Bool
category_less a b =
    if eqb_ℤ a.sort_order b.sort_order
    then less_text a.key b.key
    else ltb_ℤ a.sort_order b.sort_order

unfoldable pub categories_of : Assoc SkillCategoryRecord → List SkillCategoryRecord
categories_of [] = []
categories_of ((key, rec) ∷ categories) = rec ∷ categories_of categories

unfoldable pub list_skill_categories : Store → String → Result (List SkillCategoryRecord)
list_skill_categories s tenant_id =
    for_tenant tenant_id (ok (sort_by category_less (categories_of s.skill_categories)))
