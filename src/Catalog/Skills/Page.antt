-- ===== src/Catalog/Skills/Page.antt =====
-- A page of the skills catalog.
use mathlib.Core.List.{Perm}
use mathlib.Core.Path.{subst}
use orbit_control.Prelude.{
  ℕ, ◌-◌, ◌*◌, ◌≤◌, String, Bool, true, false, ◌&&◌, ◌||◌, ◌≡◌, ◌≢◌, refl, sym, ap, Option, none,
  some, List, [], ◌∷◌, map, filter_by, take, drop, Assoc, lookup, str_eq, str_eq_of_ne, arith,
  length, All, Bool-cases, Option-cases, inl, inr, ◌⊎◌, eq_of_str_eq,
}
use orbit_control.Prelude.Int.{ℤ, pos_part, ◌≤ℤ◌, eqb_ℤ-refl}
use orbit_control.Prelude.Sort.{Ordered, sort_by, sort_by-perm, sort_by-Ordered}
use orbit_control.Text.Order.{less_text, contains_text}
use orbit_control.Catalog.Query.{later, descending}
use orbit_control.Catalog.Query.Order.{later_asym, later_trans, descending_asym, descending_trans}
use orbit_control.Outcome.{ok}
use orbit_control.Catalog.{SkillRecord, SkillCategoryRecord, Store}
use orbit_control.Catalog.Query.Pages.{page_items-slice, clamp-bounds}
use orbit_control.Catalog.Skills.{
  SkillCatalogQuery, normalize_skill_query, less_by, skill_less, skill_visible, named, matched,
  latest, list_skill_catalog,
}

less_by_asym : (u l : Bool) (x y : SkillRecord) → less_by u l y x ≡ true → less_by u l x y ≡ false
unfolding less_by
less_by_asym true l x y h = later_asym x.updated_at y.updated_at x.id y.id h
less_by_asym false true x y h = descending_asym x.likes y.likes x.id y.id h
less_by_asym false false x y h = descending_asym x.downloads y.downloads x.id y.id h

less_by_trans :
    (u l : Bool) (x y z : SkillRecord)
    → less_by u l y x ≡ false
    → less_by u l z y ≡ false
    → less_by u l z x ≡ false
unfolding less_by
less_by_trans true l x y z h k =
    later_trans x.updated_at y.updated_at z.updated_at x.id y.id z.id h k
less_by_trans false true x y z h k = descending_trans x.likes y.likes z.likes x.id y.id z.id h k
less_by_trans false false x y z h k =
    descending_trans x.downloads y.downloads z.downloads x.id y.id z.id h k

-- whether a skill is in the category and from the source that are asked for, and has the keyword in its
-- name or one of its descriptions, each where it is asked for at all
abbrev pub wanted : (String → String) → SkillCatalogQuery → SkillRecord → Bool
wanted lower q rec =
    (str_eq q.category "" || str_eq rec.category q.category)
    && (str_eq q.source "" || str_eq rec.source q.source)
    && (str_eq q.keyword ""
        || contains_text (lower rec.name) (lower q.keyword)
        || contains_text (lower rec.description) (lower q.keyword)
        || contains_text (lower rec.description_en) (lower q.keyword))

abbrev pub name_of : Option SkillCategoryRecord → String
name_of none = ""
name_of (some cat) = cat.name

-- the skills of a store that are wanted, with the names of their categories
abbrev pub with_name : Assoc SkillCategoryRecord → String × SkillRecord → SkillRecord
with_name cats e = record e.1 { category_name = name_of (lookup (e.1).category cats) }

abbrev pub found_in : (String → String) → SkillCatalogQuery → Store → List SkillRecord
found_in lower q s =
    map (with_name s.skill_categories) (filter_by (λ e. wanted lower q e.1) s.skills)

skill_visible-wanted :
    (lower : String → String) (rec : SkillRecord) (q : SkillCatalogQuery)
    → skill_visible lower rec q ≡ wanted lower q rec
unfolding skill_visible
skill_visible-wanted lower rec q = ground arith

named-with_name :
    (cats : Assoc SkillCategoryRecord) (key : String) (rec : SkillRecord)
    → named cats rec ≡ with_name cats (key, rec)
unfolding named
named-with_name cats key rec = elim (Option-cases (lookup rec.category cats)) [
  | inl p ↦ rw (named, p) refl
  | inr (cat, p) ↦ rw (named, p) refl
]

matched-found :
    (lower : String → String) (cats : Assoc SkillCategoryRecord) (q : SkillCatalogQuery)
    (skills : Assoc SkillRecord)
    → matched lower cats q skills
      ≡ map (with_name cats) (filter_by (λ e. wanted lower q e.1) skills)
unfolding matched
matched-found lower cats q [] = refl
matched-found lower cats q ((key, rec) ∷ skills) =
    let rest = matched-found lower cats q skills in
    elim (Bool-cases (wanted lower q rec)) [
      | inl w ↦
          rw (skill_visible-wanted lower rec q, w, named-with_name cats key rec)
            (ap (λ l. with_name cats (key, rec) ∷ l) rest)
      | inr w ↦ rw (skill_visible-wanted lower rec q, w) rest
    ]

-- `y` may stand behind `x`: the sort's number or time does not rise, and where it is the same the id
-- does not fall
abbrev pub Behind : String → SkillRecord → SkillRecord → Type 0
Behind sort x y =
    (sort ≡ "updated_at"
      → (y.updated_at ≤ x.updated_at) × (x.updated_at ≡ y.updated_at → less_text y.id x.id ≡ false))
    × (sort ≡ "likes" → (y.likes ≤ℤ x.likes) × (x.likes ≡ y.likes → less_text y.id x.id ≡ false))
    × (sort ≡ "downloads"
        → (y.downloads ≤ℤ x.downloads) × (x.downloads ≡ y.downloads → less_text y.id x.id ≡ false))

abbrev pub InOrder : String → List SkillRecord → Type 0
InOrder sort [] = Unit
InOrder sort (x ∷ xs) = All (Behind sort x) xs × InOrder sort xs

later-Behind : (a b : ℕ) (c : Bool) → later b a c ≡ false → (b ≤ a) × (a ≡ b → c ≡ false)
later-Behind a b c h = (ground arith, λ e. ground arith)

same_descending : (a : ℤ) (c : Bool) → descending a a c ≡ false → c ≡ false
same_descending a c h = rw (eqb_ℤ-refl a) at h

descending-Behind : (a b : ℤ) (c : Bool) → descending b a c ≡ false → (b ≤ℤ a) × (a ≡ b → c ≡ false)
descending-Behind a b c h =
    (ground arith, λ e. same_descending a c (subst (λ z. descending z a c ≡ false) (sym e) h))

skill_less-Behind :
    (sort : String) (x y : SkillRecord) → skill_less sort y x ≡ false → Behind sort x y
unfolding skill_less less_by
skill_less-Behind sort x y h = (
  λ e. later-Behind x.updated_at y.updated_at _ (subst (λ s. skill_less s y x ≡ false) e h),
  λ e. descending-Behind x.likes y.likes _ (subst (λ s. skill_less s y x ≡ false) e h),
  λ e. descending-Behind x.downloads y.downloads _ (subst (λ s. skill_less s y x ≡ false) e h),
)

All-Behind :
    (sort : String) (x : SkillRecord) (ys : List SkillRecord)
    → All (λ y. skill_less sort y x ≡ false) ys
    → All (Behind sort x) ys
All-Behind sort x [] h = tt
All-Behind sort x (y ∷ ys) (h, hs) = (skill_less-Behind sort x y h, All-Behind sort x ys hs)

Ordered-InOrder :
    (sort : String) (xs : List SkillRecord) → Ordered (skill_less sort) xs → InOrder sort xs
Ordered-InOrder sort [] h = tt
Ordered-InOrder sort (x ∷ xs) (h, hs) = (All-Behind sort x xs h, Ordered-InOrder sort xs hs)

-- one of the three sorts
abbrev pub IsSort : String → Type 0
IsSort sort = (sort ≡ "downloads") ⊎ (sort ≡ "updated_at") ⊎ (sort ≡ "likes")

normalize_skill_query-IsSort : (q : SkillCatalogQuery) → IsSort (normalize_skill_query q).sort
unfolding normalize_skill_query
normalize_skill_query-IsSort q = elim (Bool-cases (str_eq q.sort "downloads")) [
  | inl a ↦ inl (rw a (eq_of_str_eq q.sort "downloads" a))
  | inr a ↦ elim (Bool-cases (str_eq q.sort "updated_at")) [
    | inl b ↦ inr (inl (rw (a, b) (eq_of_str_eq q.sort "updated_at" b)))
    | inr b ↦ elim (Bool-cases (str_eq q.sort "likes")) [
      | inl c ↦ inr (inr (rw (a, b, c) (eq_of_str_eq q.sort "likes" c)))
      | inr c ↦ inl (rw (a, b, c) refl)
    ]
  ]
]

-- A listing of the catalog for a tenant counts the skills that the query, as the store normalizes it,
-- wants, each once, and shows a page of them: they are put in the order of the sort, which is that of
-- downloads, of updates or of likes, by number or time downwards and by id where those are the same, and
-- the page is the slice of 1 to 48 of them behind the pages before it.
pub list_skill_catalog-page :
    (lower : String → String) (s : Store) (tenant : String) (q : SkillCatalogQuery)
    → tenant ≢ ""
    → let n = normalize_skill_query q in
      let size = pos_part n.page_size in
      (full : List SkillRecord) × Perm full (found_in lower n s)
      × IsSort n.sort
      × InOrder n.sort full
      × (1 ≤ size)
      × (size ≤ 48)
      × (list_skill_catalog lower s tenant q
          ≡ ok (record {
            items = take size (drop ((pos_part n.page - 1) * size) full);
            total = length full;
            page = n.page;
            page_size = n.page_size;
            installed_at = latest 0 s.skills;
          }))
unfolding list_skill_catalog normalize_skill_query skill_less
list_skill_catalog-page lower s tenant q h =
    let n = normalize_skill_query q in
    let by = str_eq n.sort "updated_at" in
    let likes = str_eq n.sort "likes" in
    let found = matched lower s.skill_categories n s.skills in
    let full = sort_by (skill_less n.sort) found in
    let (low, high) = clamp-bounds 24 48 q.page_size (omega arith) (omega arith) in
    (
      full,
      subst (Perm full) (matched-found lower s.skill_categories n s.skills)
          (sort_by-perm (skill_less n.sort) found),
      normalize_skill_query-IsSort q,
      Ordered-InOrder n.sort full (
          sort_by-Ordered (skill_less n.sort) (less_by_asym by likes) (less_by_trans by likes)
            found),
      low,
      high,
      rw (str_eq_of_ne tenant "" h, page_items-slice n.page n.page_size full) refl,
    )
