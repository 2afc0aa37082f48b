-- ===== src/Catalog/Market/Snapshot.antt =====
-- internal/store/memstore/mcpmarket.go, ReplaceMcpMarket: the next snapshot of the market.
use orbit_control.Prelude.{
  String, ◌≡◌, ◌≢◌, refl, ◌||◌, Option, none, some, List, [], ◌∷◌, Assoc, lookup, str_eq,
  if◌then◌else◌, arith, eq_iff, ◌∙◌, sym,
}
use orbit_control.Outcome.{not_found, Result, ok, err}
use orbit_control.Catalog.{McpMarketRecord, McpMarketDetailRecord, McpMarketCategoryRecord, Store}
use orbit_control.Catalog.Loading.{
  put_all, last_put, hit, or_before, or_before-none, lookup-put_all,
}

abbrev pub server_entry : McpMarketRecord → Option (String × McpMarketRecord)
server_entry row = if str_eq row.id "" then none else some (row.id, row)

abbrev pub category_entry : McpMarketCategoryRecord → Option (String × McpMarketCategoryRecord)
category_entry row = if str_eq row.key "" || str_eq row.name "" then none else some (row.key, row)

-- A text is kept only for a server of the snapshot.
abbrev pub if_known :
    Option McpMarketRecord → McpMarketDetailRecord → Option (String × McpMarketDetailRecord)
if_known none row = none
if_known (some server) row = some (row.id, row)

abbrev pub detail_entry :
    Assoc McpMarketRecord → McpMarketDetailRecord → Option (String × McpMarketDetailRecord)
detail_entry servers row = if str_eq row.id "" then none else if_known (lookup row.id servers) row

-- The copy of the next categories into those that are stored.
abbrev pub same_entry : String × McpMarketCategoryRecord → Option (String × McpMarketCategoryRecord)
same_entry (key, row) = some (key, row)

unfoldable pub replace_mcp_market :
    Store
    → String
    → List McpMarketRecord
    → List McpMarketCategoryRecord
    → List McpMarketDetailRecord
    → Store × Result (Unit {0})
replace_mcp_market s tenant_id servers categories details =
    let next_servers = put_all server_entry servers [] in
    let next_cats = put_all category_entry categories [] in
    if str_eq tenant_id "" then (s, err not_found) else (
      record s {
        mcp_market = next_servers;
        mcp_details = put_all (detail_entry next_servers) details [];
        mcp_categories = put_all same_entry next_cats s.mcp_categories;
      },
      ok tt,
    )

module _ (servers : Assoc McpMarketRecord) where
  known_of_hit :
      (id : String) (row d : McpMarketDetailRecord) (o : Option McpMarketRecord)
      → lookup row.id servers ≡ o
      → hit id (if str_eq row.id "" then none else if_known o row) ≡ some d
      → lookup id servers ≢ none
  known_of_hit id row d none h k = ground arith
  known_of_hit id row d (some server) h k = ground (arith, eq_iff row.id id)

  known_of_last :
      (id : String) (row d : McpMarketDetailRecord) (last : Option McpMarketDetailRecord)
      → ((e : McpMarketDetailRecord) → last ≡ some e → lookup id servers ≢ none)
      → or_before last (hit id (detail_entry servers row)) ≡ some d
      → lookup id servers ≢ none
  known_of_last id row d none h k = known_of_hit id row d (lookup row.id servers) refl k
  known_of_last id row d (some e) h k = h e refl

  last_known :
      (id : String) (details : List McpMarketDetailRecord) (d : McpMarketDetailRecord)
      → last_put (detail_entry servers) id details ≡ some d
      → lookup id servers ≢ none
  last_known id [] d h = ground arith
  last_known id (row ∷ rows) d h =
      known_of_last id row d (last_put (detail_entry servers) id rows) (last_known id rows) h

lookup-details :
    (servers : Assoc McpMarketRecord) (details : List McpMarketDetailRecord) (id : String)
    (d : McpMarketDetailRecord)
    → lookup id (put_all (detail_entry servers) details []) ≡ some d
    → lookup id servers ≢ none
unfolding lookup
lookup-details servers details id d h = last_known servers id details d (
    sym (or_before-none (last_put (detail_entry servers) id details))
    ∙ sym (lookup-put_all (detail_entry servers) id details [])
    ∙ h)

-- No text without its card: after a replacement for a tenant with a name, an id that has a text in
-- the store has a server in it, whatever texts were given.
pub replace_mcp_market-no_orphans :
    (s : Store) (tenant id : String) (servers : List McpMarketRecord)
    (categories : List McpMarketCategoryRecord) (details : List McpMarketDetailRecord)
    (d : McpMarketDetailRecord)
    → tenant ≢ ""
    → lookup id (replace_mcp_market s tenant servers categories details).0.mcp_details ≡ some d
    → lookup id (replace_mcp_market s tenant servers categories details).0.mcp_market ≢ none
unfolding replace_mcp_market
replace_mcp_market-no_orphans s tenant id servers categories details d h =
    ground (arith, eq_iff tenant "", lookup-details (put_all server_entry servers []) details id d)
