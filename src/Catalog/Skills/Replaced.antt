-- ===== src/Catalog/Skills/Replaced.antt =====
-- What a reader gets of a skill after the catalog was replaced.
use mathlib.Core.Path.{subst}
use orbit_control.Prelude.{
  ℕ, String, ◌≡◌, ◌≢◌, ◌⊎◌, inl, inr, refl, sym, ap, ◌∙◌, none, some, List, Assoc, lookup, str_eq,
  if◌then◌else◌, ◌==◌, All, Bool-cases, Option-cases, eq_of_str_eq, ne_of_str_eq,
}
use orbit_control.Outcome.{not_found, ok, err}
use orbit_control.Catalog.{SkillRecord, SkillCategoryRecord, Store}
use orbit_control.Catalog.Loading.{
  put_all, last_put, lookup-put_all, LastOf, last_put-LastOf, last_put-unkeyed,
}
use orbit_control.Catalog.Skills.{
  answer, with_category, get_skill, replace_skills, category_entry, installed,
}
use orbit_control.Catalog.Skills.Snapshot.{get_skill-replace_skills}

-- The name that a row's category has after categories were written over those that were known: that
-- of the last one with its key, else that of the known one, else the name in the row. A category with
-- an empty key is not written.
abbrev pub CategoryName :
    List SkillCategoryRecord → Assoc SkillCategoryRecord → SkillRecord → String → Type 0
CategoryName cs known row name =
    ((cat : SkillCategoryRecord) × (row.category ≢ "")
      × LastOf (λ c. c.key) row.category cat cs
      × (name ≡ cat.name))
    ⊎ (((row.category ≡ "") ⊎ All (λ c. c.key ≢ row.category) cs)
        × (((cat : SkillCategoryRecord) × (lookup row.category known ≡ some cat)
              × (name ≡ cat.name))
            ⊎ ((lookup row.category known ≡ none) × (name ≡ row.category_name))))

with_category-some :
    (cats : Assoc SkillCategoryRecord) (row : SkillRecord) (cat : SkillCategoryRecord)
    → lookup row.category cats ≡ some cat
    → with_category cats row ≡ record row { category_name = cat.name }
unfolding with_category
with_category-some cats row cat h = rw (with_category, h) refl

with_category-none :
    (cats : Assoc SkillCategoryRecord) (row : SkillRecord)
    → lookup row.category cats ≡ none
    → with_category cats row ≡ record row { category_name = row.category_name }
unfolding with_category
with_category-none cats row h = rw (with_category, h) refl

abbrev NamedRow : List SkillCategoryRecord → Assoc SkillCategoryRecord → SkillRecord → Type 0
NamedRow cs known row =
    (name : String) × CategoryName cs known row name
    × (with_category (put_all category_entry cs known) row ≡ record row { category_name = name })

module _ (cs : List SkillCategoryRecord) (known : Assoc SkillCategoryRecord)
    (row : SkillRecord) where
  after_known :
      last_put category_entry row.category cs ≡ none
      → lookup row.category (put_all category_entry cs known) ≡ lookup row.category known
  after_known h = lookup-put_all category_entry row.category cs known ∙ rw h refl

  with_category-kept :
      (row.category ≡ "") ⊎ All (λ c. c.key ≢ row.category) cs
      → last_put category_entry row.category cs ≡ none
      → NamedRow cs known row
  with_category-kept others h = elim (Option-cases (lookup row.category known)) [
    | inl p ↦ (
      row.category_name,
      inr (others, inr (p, refl)),
      with_category-none _ row (after_known h ∙ p),
    )
    | inr (cat, p) ↦ (
      cat.name,
      inr (others, inl (cat, p, refl)),
      with_category-some _ row cat (after_known h ∙ p),
    )
  ]

  with_category-CategoryName : NamedRow cs known row
  with_category-CategoryName = elim (Bool-cases (str_eq row.category "")) [
    | inl empty ↦
        let e = eq_of_str_eq row.category "" empty in
        with_category-kept (inl e) (
          subst (λ k. last_put category_entry k cs ≡ none) (sym e)
            (last_put-unkeyed (λ c. c.key) (λ c. c) cs))
    | inr set ↦
        let n = ne_of_str_eq row.category "" set in
        elim (last_put-LastOf (λ c. c.key) (λ c. c) cs row.category n) [
          | inl (cat, last, e) ↦ (
            cat.name,
            inl (cat, n, last, refl),
            with_category-some _ row cat
                (lookup-put_all category_entry row.category cs known ∙ rw e refl),
          )
          | inr (others, e) ↦ with_category-kept (inr others) e
        ]
  ]

-- A replacement is the whole catalog. Afterwards a reader gets the last of the rows with the skill's id:
-- with the time of the replacement where it has no install time, and with the name of its category as
-- the replacement leaves the categories. A skill without a row is not found. The tenants and the id are
-- not empty.
pub replace_skills-get :
    (s : Store) (tenant reader id : String) (rows : List SkillRecord)
    (cs : List SkillCategoryRecord) (now : ℕ)
    → tenant ≢ ""
    → reader ≢ ""
    → id ≢ ""
    → let got = get_skill (replace_skills s tenant rows cs now).0 reader id in
      ((row : SkillRecord) × (name : String) × LastOf (λ r. r.id) id row rows
        × CategoryName cs s.skill_categories row name
        × (got
            ≡ ok (record row {
              installed_at = if row.installed_at == 0 then now else row.installed_at;
              category_name = name;
            })))
      ⊎ (All (λ r. r.id ≢ id) rows × (got ≡ err not_found))
unfolding answer
replace_skills-get s tenant reader id rows cs now h k i =
    let e = get_skill-replace_skills s tenant reader id rows cs now h k i in
    elim (last_put-LastOf (λ r. r.id) (installed now) rows id i) [
      | inl (row, last, put) ↦
          let (name, category, named) =
            with_category-CategoryName cs s.skill_categories (installed now row) in
          inl (row, name, last, category, e ∙ rw put (ap ok named))
      | inr (others, put) ↦ inr (others, e ∙ rw put refl)
    ]
