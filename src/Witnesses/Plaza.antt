-- ===== src/Witnesses/Plaza.antt =====
-- Runs of the agents catalog and of the market.
use orbit_control.Prelude.{
  String, true, false, ◌≡◌, ◌≢◌, refl, none, some, List, [], ◌∷◌, lookup, insert, ne_of_str_eq,
}
use orbit_control.Prelude.Int.{pos}
use orbit_control.Catalog.{AgentRecord, McpMarketRecord, McpMarketDetailRecord, Store, new}
use orbit_control.Catalog.Loading.{put_all}
use orbit_control.Catalog.Agents.{AgentCatalogQuery, replace_agents}
use orbit_control.Catalog.Market.Snapshot.{replace_mcp_market, replace_mcp_market-no_orphans}

abbrev same : String → String
same s = s

abbrev agent : AgentRecord
agent = record {
  id = "@a/coder";
  handle = "@a";
  slug = "coder";
  name = "Coder";
  description = "codes";
  framework = "";
  license = "";
  logo_url = "";
  catalogues = "dev" ∷ [];
  models = [];
  mcps = [];
  skills = [];
  system_prompts = [];
  readme = "";
  files = [];
  files_known = false;
  stars = pos 2;
  downloads = pos 5;
  visits = pos 0;
  updated_at = 3;
  source = "common";
}

abbrev agents : List AgentRecord
agents = agent ∷ record agent { id = "@a/tester" } ∷ record agent { name = "Coder 2" } ∷ []

abbrev query : AgentCatalogQuery
query = record { sort = "stars"; catalogue = "dev"; keyword = ""; page = pos 1; page_size = pos 1 }

abbrev stocked : Store
stocked = (replace_agents new "t1" agents).0

abbrev server : McpMarketRecord
server = record {
  id = "m1";
  name = "Maps";
  summary = "";
  author = "";
  category = "geo";
  category_name = "";
  category_more = pos 0;
  calls = pos 0;
  views = pos 0;
  stars = pos 0;
  verified = true;
  hosted = true;
  needs_online = false;
  source = "common";
  icon_url = "";
  rank = pos 1;
}

abbrev texts : List McpMarketDetailRecord
texts =
    record { id = "m1"; license = "MIT"; updated_on = ""; readme = "maps"; tools = [] }
    ∷ record { id = "m2"; license = ""; updated_on = ""; readme = "orphan"; tools = [] }
    ∷ []

abbrev text_of_m1 : McpMarketDetailRecord
text_of_m1 = record { id = "m1"; license = "MIT"; updated_on = ""; readme = "maps"; tools = [] }

kept :
    lookup "m1" (replace_mcp_market new "t1" (server ∷ []) [] texts).0.mcp_details ≡ some text_of_m1
unfolding replace_mcp_market lookup put_all insert
kept = refl

replace_mcp_market-no_orphans_example :
    lookup "m1" (replace_mcp_market new "t1" (server ∷ []) [] texts).0.mcp_market ≢ none
replace_mcp_market-no_orphans_example =
    replace_mcp_market-no_orphans new "t1" "m1" (server ∷ []) [] texts text_of_m1
      (ne_of_str_eq "t1" "" refl) kept
