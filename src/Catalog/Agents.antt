-- ===== src/Catalog/Agents.antt =====
-- internal/store/memstore/agents.go: the snapshot of the agents catalog, and the hashes of the
-- snapshots. `lower` is strings.ToLower.
pub mod Snapshot
use orbit_control.Prelude.{
  ℕ, String, Bool, true, false, not, ◌&&◌, ◌||◌, Option, none, some, List, [], ◌∷◌, Assoc, lookup,
  insert, ltb, ◌==◌, str_eq, if◌then◌else◌, length, contains,
}
use orbit_control.Prelude.Int.{ℤ, pos, ltb_ℤ, eqb_ℤ}
use orbit_control.Prelude.Sort.{sort_by}
use orbit_control.Text.Order.{less_text, contains_text}
use orbit_control.Outcome.{Error, not_found, Result, ok, err}
use orbit_control.Catalog.{AgentRecord, Store, for_tenant}
use orbit_control.Catalog.Loading.{put_all}
use orbit_control.Catalog.Query.{clip_text, clip_token, clamp, descending, later, page_items}

pub record AgentCatalogQuery : Type 0 where
  pub sort : String
  pub catalogue : String
  pub keyword : String
  pub page : ℤ
  pub page_size : ℤ

pub record AgentCatalogPage : Type 0 where
  pub items : List AgentRecord
  pub total : ℕ
  pub page : ℤ
  pub page_size : ℤ

pub normalize_agent_catalog_query : AgentCatalogQuery → AgentCatalogQuery
normalize_agent_catalog_query q = record {
  sort =
      if str_eq q.sort "downloads" || str_eq q.sort "updated_at" || str_eq q.sort "stars"
      then q.sort
      else "downloads";
  catalogue = clip_token q.catalogue 64;
  keyword = clip_text q.keyword 80;
  page = clamp (pos 1) (pos 10000) q.page;
  page_size = clamp (pos 24) (pos 48) q.page_size;
}

-- The cases of the sort: by the time of the update, by stars, by downloads.
pub less_by : Bool → Bool → AgentRecord → AgentRecord → Bool
less_by true by_count a b = later a.updated_at b.updated_at (less_text a.id b.id)
less_by false true a b = descending a.stars b.stars (less_text a.id b.id)
less_by false false a b = descending a.downloads b.downloads (less_text a.id b.id)

pub agent_less : String → AgentRecord → AgentRecord → Bool
unfolding less_by
agent_less sort_by a b = less_by (str_eq sort_by "updated_at") (str_eq sort_by "stars") a b

module _ (lower : String → String) where
  unfoldable pub agent_visible : AgentRecord → AgentCatalogQuery → Bool
  agent_visible rec q =
      if not (str_eq q.catalogue "") && not (contains q.catalogue rec.catalogues)
      then false
      else if not (str_eq q.keyword "")
      then contains_text (lower rec.name) (lower q.keyword)
        || contains_text (lower rec.description) (lower q.keyword)
        || contains_text (lower rec.readme) (lower q.keyword)
      else true

  unfoldable pub matched : AgentCatalogQuery → Assoc AgentRecord → List AgentRecord
  matched q [] = []
  matched q ((key, rec) ∷ agents) =
      let rest = matched q agents in if agent_visible rec q then rec ∷ rest else rest

  pub list_agent_catalog : Store → String → AgentCatalogQuery → Result AgentCatalogPage
  list_agent_catalog s tenant_id query =
      let q = normalize_agent_catalog_query query in
      let found = sort_by (agent_less q.sort) (matched q s.agents) in
      for_tenant tenant_id (
        ok (record {
          items = page_items q.page q.page_size found;
          total = length found;
          page = q.page;
          page_size = q.page_size;
        }))

pub found_or_err : Option AgentRecord → Result AgentRecord
found_or_err none = err not_found
found_or_err (some rec) = ok rec

pub get_agent : Store → String → String → Result AgentRecord
unfolding found_or_err
get_agent s tenant_id id =
    if str_eq tenant_id "" || str_eq id "" then err not_found else found_or_err (lookup id s.agents)

abbrev pub agent_entry : AgentRecord → Option (String × AgentRecord)
agent_entry row = if str_eq row.id "" then none else some (row.id, row)

pub replace_agents : Store → String → List AgentRecord → Store × Result (Unit {0})
replace_agents s tenant_id rows =
    if str_eq tenant_id ""
    then (s, err not_found)
    else (record s { agents = put_all agent_entry rows [] }, ok tt)

sha_of : Option String → String × Bool
sha_of none = ("", false)
sha_of (some sha) = (sha, true)

unfoldable pub catalog_snapshot : Store → String → String → Result (String × Bool)
unfolding sha_of
catalog_snapshot s tenant_id name = for_tenant tenant_id (ok (sha_of (lookup name s.snapshots)))

unfoldable pub set_catalog_snapshot : Store → String → String → String → Store × Result (Unit {0})
set_catalog_snapshot s tenant_id name sha =
    if str_eq tenant_id ""
    then (s, err not_found)
    else (record s { snapshots = insert name sha s.snapshots }, ok tt)
