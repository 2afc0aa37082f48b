-- ===== src/Catalog/Market.antt =====
-- internal/store/memstore/mcpmarket.go: the stored snapshot of the MCP market. `lower` is
-- strings.ToLower.
pub mod Snapshot
use orbit_control.Prelude.{
  ℕ, ◌+◌, String, Bool, true, false, not, ◌&&◌, ◌||◌, Option, none, some, List, [], ◌∷◌, Assoc,
  lookup, insert, ltb, ◌==◌, str_eq, if◌then◌else◌, length,
}
use orbit_control.Prelude.Int.{ℤ, pos, ltb_ℤ, eqb_ℤ}
use orbit_control.Prelude.Sort.{sort_by}
use orbit_control.Text.Order.{less_text, contains_text}
use orbit_control.Outcome.{Error, not_found, Result, ok, err}
use orbit_control.Catalog.{
  McpMarketRecord, McpMarketTool, McpMarketDetailRecord, McpMarketCategoryRecord, Store, for_tenant,
}
use orbit_control.Catalog.Query.{clip_text, clip_token, bool_word, source_word, clamp, page_items}

pub record McpMarketQuery : Type 0 where
  pub keyword : String
  pub category : String
  pub service_type : String
  pub needs_online : String
  pub source : String
  pub page : ℤ
  pub page_size : ℤ

pub record McpMarketPage : Type 0 where
  pub items : List McpMarketRecord
  pub total : ℕ
  pub stored : ℕ
  pub page : ℤ
  pub page_size : ℤ

pub record McpMarketCategoryCount : Type 0 where
  pub key : String
  pub name : String
  pub sort_order : ℤ
  pub count : ℕ

-- A card with the text stored beside it.
pub record McpMarketDetail : Type 0 where
  pub card : McpMarketRecord
  pub license : String
  pub updated_on : String
  pub readme : String
  pub tools : List McpMarketTool

name_of : Option McpMarketCategoryRecord → String
name_of none = ""
name_of (some cat) = cat.name

-- names[key], the empty text where the key is unknown
unfoldable pub category_name : Assoc McpMarketCategoryRecord → String → String
unfolding name_of
category_name categories key = name_of (lookup key categories)

unfoldable pub needs_online_ok : McpMarketRecord → String → Bool
needs_online_ok rec filter =
    if str_eq filter "true"
    then rec.needs_online
    else if str_eq filter "false"
    then not rec.needs_online
    else true

module _ (lower : String → String) where
  unfoldable pub normalize_mcp_market_query : McpMarketQuery → McpMarketQuery
  normalize_mcp_market_query q = record {
    keyword = clip_text q.keyword 80;
    category = clip_token q.category 64;
    service_type =
        if str_eq q.service_type "hosted" || str_eq q.service_type "local"
        then q.service_type
        else "";
    needs_online = bool_word lower q.needs_online;
    source = source_word q.source;
    page = clamp (pos 1) (pos 10000) q.page;
    page_size = clamp (pos 30) (pos 48) q.page_size;
  }

  unfoldable pub market_visible : McpMarketRecord → String → McpMarketQuery → String → Bool
  market_visible rec category q kw =
      if not (str_eq q.category "") && not (str_eq rec.category q.category)
      then false
      else if not (str_eq q.source "") && not (str_eq rec.source q.source)
      then false
      else if str_eq q.service_type "hosted" && not rec.hosted
      then false
      else if str_eq q.service_type "local" && rec.hosted
      then false
      else if str_eq kw ""
      then true
      else contains_text (lower rec.name) kw
        || contains_text (lower rec.author) kw
        || contains_text (lower rec.summary) kw
        || contains_text (lower rec.category) kw
        || contains_text (lower category) kw

  unfoldable pub name_hit : McpMarketRecord → String → Bool
  name_hit rec kw = contains_text (lower rec.name) kw || contains_text (lower rec.author) kw

  by_rank : McpMarketRecord → McpMarketRecord → Bool
  by_rank a b = if not (eqb_ℤ a.rank b.rank) then ltb_ℤ a.rank b.rank else less_text a.id b.id

  -- The numbers that rank a hit on the name before any other.
  hit_rank : Bool → ℕ
  hit_rank true = 0
  hit_rank false = 1

  unfoldable pub market_less : String → McpMarketRecord → McpMarketRecord → Bool
  unfolding by_rank hit_rank
  market_less kw a b =
      let ai = hit_rank (name_hit a kw) in
      let bi = hit_rank (name_hit b kw) in
      if not (str_eq kw "") && not (ai == bi) then ltb ai bi else by_rank a b

  module _ (categories : Assoc McpMarketCategoryRecord) (q : McpMarketQuery) (kw : String) where
    -- The loop of `ListMcpMarket` over the servers: those that match, ...
    unfoldable pub matched : Assoc McpMarketRecord → List McpMarketRecord
    matched [] = []
    matched ((key, rec) ∷ servers) =
        let rest = matched servers in
        if not (needs_online_ok rec q.needs_online)
        then rest
        else if not (market_visible rec (category_name categories rec.category) q kw)
        then rest
        else record rec { category_name = category_name categories rec.category } ∷ rest

  -- ... and how many pass the first filter.
  unfoldable pub count_stored : String → Assoc McpMarketRecord → ℕ
  count_stored filter [] = 0
  count_stored filter ((key, rec) ∷ servers) =
      let rest = count_stored filter servers in
      if needs_online_ok rec filter then 1 + rest else rest

  unfoldable pub list_mcp_market : Store → String → McpMarketQuery → Result McpMarketPage
  list_mcp_market s tenant_id query =
      let q = normalize_mcp_market_query query in
      let kw = lower q.keyword in
      let found = sort_by (market_less kw) (matched s.mcp_categories q kw s.mcp_market) in
      for_tenant tenant_id (
        ok (record {
          items = page_items q.page q.page_size found;
          total = length found;
          stored = count_stored q.needs_online s.mcp_market;
          page = q.page;
          page_size = q.page_size;
        }))

-- counts[key]
unfoldable pub count_in : String → String → Assoc McpMarketRecord → ℕ
count_in filter category [] = 0
count_in filter category ((key, rec) ∷ servers) =
    let rest = count_in filter category servers in
    if needs_online_ok rec filter && str_eq rec.category category then 1 + rest else rest

unfoldable pub counts_of :
    String → Assoc McpMarketRecord → Assoc McpMarketCategoryRecord → List McpMarketCategoryCount
counts_of filter servers [] = []
counts_of filter servers ((key, cat) ∷ categories) =
    let rest = counts_of filter servers categories in
    let count = count_in filter key servers in
    if count == 0
    then rest
    else record { key = key; name = cat.name; sort_order = cat.sort_order; count = count } ∷ rest

unfoldable pub count_less : McpMarketCategoryCount → McpMarketCategoryCount → Bool
count_less a b =
    if not (eqb_ℤ a.sort_order b.sort_order)
    then ltb_ℤ a.sort_order b.sort_order
    else less_text a.key b.key

unfoldable pub list_mcp_market_categories :
    (String → String) → Store → String → String → Result (List McpMarketCategoryCount)
list_mcp_market_categories lower s tenant_id needs_online =
    let filter = bool_word lower needs_online in
    for_tenant tenant_id (ok (sort_by count_less (counts_of filter s.mcp_market s.mcp_categories)))

named : McpMarketRecord → Option McpMarketCategoryRecord → McpMarketRecord
named rec none = rec
named rec (some cat) = record rec { category_name = cat.name }

with_detail : McpMarketRecord → Option McpMarketDetailRecord → McpMarketDetail
with_detail card none = record {
  card = card;
  license = "";
  updated_on = "";
  readme = "";
  tools = [];
}
with_detail card (some d) = record {
  card = card;
  license = d.license;
  updated_on = d.updated_on;
  readme = d.readme;
  tools = d.tools;
}

detail_of : Store → String → Option McpMarketRecord → Result McpMarketDetail
unfolding named with_detail
detail_of s id none = err not_found
detail_of s id (some rec) =
    ok (with_detail (named rec (lookup rec.category s.mcp_categories)) (lookup id s.mcp_details))

unfoldable pub get_mcp_market : Store → String → String → Result McpMarketDetail
unfolding detail_of
get_mcp_market s tenant_id id =
    if str_eq tenant_id "" || str_eq id ""
    then err not_found
    else detail_of s id (lookup id s.mcp_market)
