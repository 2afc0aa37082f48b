-- ===== src/Catalog/Agents/Snapshot.antt =====
-- The agents catalog after a replacement, and a page of it.
use orbit_control.Prelude.{
  ◌≤◌, String, Bool, true, false, ◌≡◌, ◌≢◌, ◌∙◌, List, [], ◌∷◌, Assoc, lookup, str_eq, arith,
  eq_iff, length, All, Bool-cases, inl, inr,
}
use orbit_control.Prelude.Sort.{Ordered}
use orbit_control.Outcome.{Result, ok, err}
use orbit_control.Catalog.{AgentRecord, Store}
use orbit_control.Catalog.Loading.{put_all, last_put, or_before-none, lookup-put_all}
use orbit_control.Catalog.Query.Pages.{page_items-sorted, clamp-bounds}
use orbit_control.Catalog.Query.Order.{later_asym, later_trans, descending_asym, descending_trans}
use orbit_control.Catalog.Agents.{
  AgentCatalogQuery, AgentCatalogPage, normalize_agent_catalog_query, less_by, agent_less,
  agent_visible, matched, list_agent_catalog, get_agent, replace_agents, agent_entry, found_or_err,
}

lookup-put_rows :
    (id : String) (rows : List AgentRecord)
    → lookup id (put_all agent_entry rows []) ≡ last_put agent_entry id rows
unfolding lookup
lookup-put_rows id rows =
    lookup-put_all agent_entry id rows [] ∙ or_before-none (last_put agent_entry id rows)

-- A replacement is the whole catalog: afterwards an agent is the last of the rows with its id, and
-- an agent without a row is not found. The tenants and the id are not empty.
pub replace_agents-get :
    (s : Store) (tenant reader id : String) (rows : List AgentRecord)
    → tenant ≢ ""
    → reader ≢ ""
    → id ≢ ""
    → get_agent (replace_agents s tenant rows).0 reader id
      ≡ found_or_err (last_put agent_entry id rows)
unfolding get_agent replace_agents
replace_agents-get s tenant reader id rows h k i =
    ground (arith, eq_iff tenant "", eq_iff reader "", eq_iff id "", lookup-put_rows id rows)

less_by_asym : (u l : Bool) (x y : AgentRecord) → less_by u l y x ≡ true → less_by u l x y ≡ false
unfolding less_by
less_by_asym true l x y h = later_asym x.updated_at y.updated_at x.id y.id h
less_by_asym false true x y h = descending_asym x.stars y.stars x.id y.id h
less_by_asym false false x y h = descending_asym x.downloads y.downloads x.id y.id h

less_by_trans :
    (u l : Bool) (x y z : AgentRecord)
    → less_by u l y x ≡ false
    → less_by u l z y ≡ false
    → less_by u l z x ≡ false
unfolding less_by
less_by_trans true l x y z h k =
    later_trans x.updated_at y.updated_at z.updated_at x.id y.id z.id h k
less_by_trans false true x y z h k = descending_trans x.stars y.stars z.stars x.id y.id z.id h k
less_by_trans false false x y z h k =
    descending_trans x.downloads y.downloads z.downloads x.id y.id z.id h k

abbrev pub Matches : (String → String) → AgentCatalogQuery → AgentRecord → Type 0
Matches lower q rec = agent_visible lower rec q ≡ true

matched-All :
    (lower : String → String) (q : AgentCatalogQuery) (agents : Assoc AgentRecord)
    → All (Matches lower q) (matched lower q agents)
unfolding matched
matched-All lower q [] = tt
matched-All lower q ((key, rec) ∷ agents) =
    let rest = matched-All lower q agents in
    elim (Bool-cases (agent_visible lower rec q)) [ inl h ↦ rw h (h, rest) | inr h ↦ rw h rest ]

-- what a listing's page holds, nothing where the listing is refused
abbrev pub page_of : Result AgentCatalogPage → List AgentRecord
page_of (ok page) = page.items
page_of (err e) = []

-- Whatever is asked for, a page of the catalog has at most 48 agents, each of them matches the
-- catalogue and the keyword of the query that the store made of it, and they stand in the order of
-- the query's sort, with ties in the order of their ids.
pub list_agent_catalog-page :
    (lower : String → String) (s : Store) (tenant : String) (q : AgentCatalogQuery)
    → (length (page_of (list_agent_catalog lower s tenant q)) ≤ 48)
      × All
          (Matches lower (normalize_agent_catalog_query q))
          (page_of (list_agent_catalog lower s tenant q))
      × Ordered
          (agent_less (normalize_agent_catalog_query q).sort)
          (page_of (list_agent_catalog lower s tenant q))
unfolding list_agent_catalog normalize_agent_catalog_query agent_less
list_agent_catalog-page lower s tenant q =
    let n = normalize_agent_catalog_query q in
    let by = str_eq n.sort "updated_at" in
    let stars = str_eq n.sort "stars" in
    let (size, matches, sorted) =
      page_items-sorted (agent_less n.sort) (Matches lower n) (less_by_asym by stars)
        (less_by_trans by stars) n.page n.page_size (matched lower n s.agents)
        (matched-All lower n s.agents) in
    let (low, high) = clamp-bounds 24 48 q.page_size (omega arith) (omega arith) in
    elim (Bool-cases (str_eq tenant "")) [
      | inl h ↦ rw h (omega arith, tt, tt)
      | inr h ↦ rw h (omega (arith, size, high), matches, sorted)
    ]
