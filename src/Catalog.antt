-- ===== src/Catalog.antt =====
-- internal/store/memstore and the query rules of internal/store/repository.go: the catalog kept in
-- process. A Go map is an association list, whose order stands for the order in which a loop over the
-- map happens to run. A time is a number of nanoseconds, 0 the zero time; a nil slice is the empty
-- list. Each operation holds the store's mutex, so it is one step. `lower` is strings.ToLower.
pub mod Query
pub mod Rows
pub mod Loading
pub mod Personas
pub mod Connectors
pub mod Skills
pub mod Agents
pub mod Market
pub mod Icons
use orbit_control.Prelude.{
  ℕ, String, Bool, true, false, Option, none, some, List, [], ◌∷◌, Assoc, lookup, insert, ltb, ◌==◌,
  str_eq, if◌then◌else◌,
}
use orbit_control.Prelude.Int.{ℤ}
use orbit_control.Text.Order.{less_text}
use orbit_control.Outcome.{Error, not_found, Result, ok, err}

pub record PersonaRecord : Type 0 where
  pub id : String
  pub name : String
  pub instructions : String
  pub mcp_connector_ids : List String
  pub created_at : ℕ

pub record McpConnectorRecord : Type 0 where
  pub id : String
  pub name : String
  pub transport : String
  pub command : String
  pub args : List String
  pub env_refs : List String
  pub url : String
  pub header_refs : List String
  pub default_open : Bool
  pub created_at : ℕ

pub record SkillFile : Type 0 where
  pub path : String
  pub body : String

pub record SkillRecord : Type 0 where
  pub id : String
  pub handle : String
  pub slug : String
  pub name : String
  pub description : String
  pub description_en : String
  pub category : String
  pub category_name : String
  pub tags : List String
  pub license : String
  pub icon_url : String
  pub source_url : String
  pub downloads : ℤ
  pub visits : ℤ
  pub likes : ℤ
  pub updated_at : ℕ
  pub source : String
  pub text_files : List SkillFile
  pub files_known : Bool
  pub installed_at : ℕ

pub record SkillTextFilesRow : Type 0 where
  pub id : String
  pub files : List SkillFile

pub record SkillCategoryRecord : Type 0 where
  pub key : String
  pub name : String
  pub name_en : String
  pub sort_order : ℤ

pub record AgentModel : Type 0 where
  pub name : String
  pub supplier : String
  pub protocol : String

pub record AgentRef : Type 0 where
  pub name : String
  pub description : String

pub record AgentPrompt : Type 0 where
  pub filename : String
  pub content : String

pub record AgentRecord : Type 0 where
  pub id : String
  pub handle : String
  pub slug : String
  pub name : String
  pub description : String
  pub framework : String
  pub license : String
  pub logo_url : String
  pub catalogues : List String
  pub models : List AgentModel
  pub mcps : List AgentRef
  pub skills : List AgentRef
  pub system_prompts : List AgentPrompt
  pub readme : String
  pub files : List SkillFile
  pub files_known : Bool
  pub stars : ℤ
  pub downloads : ℤ
  pub visits : ℤ
  pub updated_at : ℕ
  pub source : String

pub record CatalogIcon : Type 0 where
  pub url : String
  pub content_type : String
  pub bytes : List ℕ

pub record McpMarketRecord : Type 0 where
  pub id : String
  pub name : String
  pub summary : String
  pub author : String
  pub category : String
  pub category_name : String
  pub category_more : ℤ
  pub calls : ℤ
  pub views : ℤ
  pub stars : ℤ
  pub verified : Bool
  pub hosted : Bool
  pub needs_online : Bool
  pub source : String
  pub icon_url : String
  pub rank : ℤ

pub record McpMarketToolParam : Type 0 where
  pub name : String
  pub type : String
  pub required : Bool
  pub description : String

pub record McpMarketTool : Type 0 where
  pub name : String
  pub description : String
  pub params : List McpMarketToolParam

pub record McpMarketDetailRecord : Type 0 where
  pub id : String
  pub license : String
  pub updated_on : String
  pub readme : String
  pub tools : List McpMarketTool

pub record McpMarketCategoryRecord : Type 0 where
  pub key : String
  pub name : String
  pub sort_order : ℤ

-- personaRow and connectorRow: a record with the tenant that owns it
pub record Row (A : Type 0) : Type 0 where
  pub tenant_id : String
  pub rec : A

pub record Store : Type 0 where
  pub personas : Assoc (Row PersonaRecord)
  pub connectors : Assoc (Row McpConnectorRecord)
  pub skills : Assoc SkillRecord
  pub skill_categories : Assoc SkillCategoryRecord
  pub agents : Assoc AgentRecord
  pub snapshots : Assoc String
  pub icons : Assoc CatalogIcon
  pub mcp_market : Assoc McpMarketRecord
  pub mcp_categories : Assoc McpMarketCategoryRecord
  pub mcp_details : Assoc McpMarketDetailRecord

abbrev pub new : Store
new = record {
  personas = [];
  connectors = [];
  skills = [];
  skill_categories = [];
  agents = [];
  snapshots = [];
  icons = [];
  mcp_market = [];
  mcp_categories = [];
  mcp_details = [];
}

-- Every operation starts with this guard.
abbrev pub for_tenant {ℓ} : {A : Type ℓ} → String → Result A → Result A
for_tenant tenant_id r = if str_eq tenant_id "" then err not_found else r

unfoldable pub check_tenant : String → Result (Unit {0})
check_tenant tenant_id = for_tenant tenant_id (ok tt)
