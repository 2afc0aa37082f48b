-- ===== src/App/Library.antt =====
-- internal/app/catalog.go: a tenant's personas and connectors, as they are created and read. `stamp`
-- prints a time; the id and the time of a creation, and what the repository answers, are arguments.
use orbit_control.Prelude.{ℕ, String, Bool, List, map, str_eq, if◌then◌else◌}
use orbit_control.Outcome.{invalid, Result, ok, err, ◌>>=◌, ◌>>◌}
use orbit_control.Text.{trim_space}
use orbit_control.Catalog.{PersonaRecord, McpConnectorRecord}
use orbit_control.App.Connectors.{
  HeaderRef, McpConnectorInput, clean_names, decode_header_refs, new_connector,
}

pub record Persona : Type 0 where
  pub id : String
  pub name : String
  pub instructions : String
  pub mcp_connector_ids : List String
  pub created_at : String

pub record McpConnector : Type 0 where
  pub id : String
  pub name : String
  pub transport : String
  pub command : String
  pub args : List String
  pub env_refs : List String
  pub url : String
  pub header_refs : List HeaderRef
  pub default_open : Bool
  pub created_at : String

module _ (stamp : ℕ → String) where
  pub persona_from_record : PersonaRecord → Persona
  persona_from_record rec = record {
    id = rec.id;
    name = rec.name;
    instructions = rec.instructions;
    mcp_connector_ids = rec.mcp_connector_ids;
    created_at = stamp rec.created_at;
  }

  -- What is shown of a connector, with its headers.
  pub shown : McpConnectorRecord → String → List HeaderRef → McpConnector
  shown rec transport headers = record {
    id = rec.id;
    name = rec.name;
    transport = transport;
    command = rec.command;
    args = rec.args;
    env_refs = rec.env_refs;
    url = rec.url;
    header_refs = headers;
    default_open = rec.default_open;
    created_at = stamp rec.created_at;
  }

  unfoldable pub connector_from_record : McpConnectorRecord → McpConnector
  unfolding shown
  connector_from_record rec =
      shown rec (if str_eq rec.transport "" then "stdio" else rec.transport)
        (decode_header_refs rec.header_refs)

  -- ListPersonas
  pub list_personas : Result (List PersonaRecord) → Result (List Persona)
  list_personas stored = stored >>= λ recs. ok (map persona_from_record recs)

  -- ListMcpConnectors
  pub list_mcp_connectors : Result (List McpConnectorRecord) → Result (List McpConnector)
  list_mcp_connectors stored = stored >>= λ recs. ok (map connector_from_record recs)

  -- CreatePersona
  unfoldable pub create_persona :
      (PersonaRecord → Result (Unit {0}))
      → String
      → ℕ
      → String
      → String
      → List String
      → Result Persona
  unfolding persona_from_record
  create_persona stored id now name instructions mcp_ids =
      if str_eq (trim_space name) ""
      then err (invalid "name is required")
      else clean_names mcp_ids >>= λ ids.
          let rec : PersonaRecord = record {
            id = id;
            name = trim_space name;
            instructions = trim_space instructions;
            mcp_connector_ids = ids;
            created_at = now;
          } in
          stored rec >> ok (persona_from_record rec)

  -- CreateMcpConnector
  unfoldable pub create_mcp_connector :
      (String → String)
      → Result String
      → (McpConnectorRecord → Result (Unit {0}))
      → String
      → ℕ
      → McpConnectorInput
      → Result McpConnector
  unfolding shown
  create_mcp_connector lower checked stored id now in_ =
      new_connector lower checked id now in_ >>= λ made.
      stored made.0 >> ok (shown made.0 (made.0).transport made.1)
