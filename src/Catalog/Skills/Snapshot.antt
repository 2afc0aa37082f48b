-- ===== src/Catalog/Skills/Snapshot.antt =====
-- The skills catalog after a replacement, after a batch of files, and a page of it.
use orbit_control.Prelude.{
  ℕ, String, true, ◌≡◌, ◌≢◌, refl, ap, ◌∙◌, Option, none, some, List, [], ◌∷◌, Assoc, lookup,
  str_eq, if◌then◌else◌, arith, eq_iff, lookup-insert,
}
use orbit_control.Catalog.{SkillRecord, SkillFile, SkillTextFilesRow, SkillCategoryRecord, Store}
use orbit_control.Catalog.Loading.{put_all, last_put, or_before, or_before-none, lookup-put_all}
use orbit_control.Catalog.Skills.{
  answer, get_skill, replace_skills, skill_entry, category_entry, files_of, get_skill_text_files,
  save_row, save_rows, save_skill_text_files_batch,
}

lookup-put_rows :
    (now : ℕ) (id : String) (rows : List SkillRecord)
    → lookup id (put_all (skill_entry now) rows []) ≡ last_put (skill_entry now) id rows
unfolding lookup
lookup-put_rows now id rows =
    lookup-put_all (skill_entry now) id rows []
    ∙ or_before-none (last_put (skill_entry now) id rows)

-- After a replacement `GetSkill` answers from the last row with the id.
pub get_skill-replace_skills :
    (s : Store) (tenant reader id : String) (rows : List SkillRecord)
    (cs : List SkillCategoryRecord) (now : ℕ)
    → tenant ≢ ""
    → reader ≢ ""
    → id ≢ ""
    → get_skill (replace_skills s tenant rows cs now).0 reader id
      ≡ answer (put_all category_entry cs s.skill_categories) (last_put (skill_entry now) id rows)
unfolding get_skill replace_skills
get_skill-replace_skills s tenant reader id rows cs now h k i =
    ground (arith, eq_iff tenant "", eq_iff reader "", eq_iff id "", lookup-put_rows now id rows)

-- The files of the last row of a batch for an id.
abbrev pub last_files : String → List SkillTextFilesRow → Option (List SkillFile)
last_files id [] = none
last_files id (row ∷ rows) =
    or_before (last_files id rows) (if str_eq row.id id then some row.files else none)

abbrev pub with_files : Option (List SkillFile) → Option SkillRecord → Option SkillRecord
with_files none o = o
with_files (some fs) none = none
with_files (some fs) (some rec) = some (record rec { text_files = fs; files_known = true })

with_files_twice :
    (a b : Option (List SkillFile)) (o : Option SkillRecord)
    → with_files a (with_files b o) ≡ with_files (or_before a b) o
with_files_twice none b o = refl
with_files_twice (some fs) none o = refl
with_files_twice (some fs) (some gs) none = refl
with_files_twice (some fs) (some gs) (some rec) = refl

lookup-save_row :
    (id : String) (row : SkillTextFilesRow) (o : Option SkillRecord) (m : Assoc SkillRecord)
    → lookup row.id m ≡ o
    → lookup id (save_row row o m)
      ≡ with_files (if str_eq row.id id then some row.files else none) (lookup id m)
unfolding save_row
lookup-save_row id row none m h = ground (arith, eq_iff row.id id)
lookup-save_row id row (some rec) m h = ground (
  arith,
  eq_iff row.id id,
  lookup-insert row.id id (record rec { text_files = row.files; files_known = true }) m,
)

lookup-save_rows :
    (id : String) (rows : List SkillTextFilesRow) (m : Assoc SkillRecord)
    → lookup id (save_rows rows m) ≡ with_files (last_files id rows) (lookup id m)
unfolding save_rows
lookup-save_rows id [] m = refl
lookup-save_rows id (row ∷ rows) m =
    lookup-save_rows id rows (save_row row (lookup row.id m) m)
    ∙ ap (with_files (last_files id rows)) (lookup-save_row id row (lookup row.id m) m refl)
    ∙ with_files_twice (last_files id rows) (if str_eq row.id id then some row.files else none)
        (lookup id m)

-- A batch of files fills the skills that are known: a reader gets the files of the last row for the
-- skill, the files that were there before where no row is for it, and no skill appears by a batch.
-- The tenants and the id are not empty.
pub save_skill_text_files_batch-get :
    (s : Store) (tenant reader id : String) (rows : List SkillTextFilesRow)
    → tenant ≢ ""
    → reader ≢ ""
    → id ≢ ""
    → get_skill_text_files (save_skill_text_files_batch s tenant rows).0 reader id
      ≡ files_of (with_files (last_files id rows) (lookup id s.skills))
unfolding get_skill_text_files save_skill_text_files_batch
save_skill_text_files_batch-get s tenant reader id rows h k i =
    ground
      (arith, eq_iff tenant "", eq_iff reader "", eq_iff id "", lookup-save_rows id rows s.skills)
