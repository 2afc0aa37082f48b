-- ===== src/Catalog/Connectors.antt =====
-- internal/store/memstore/memstore.go: the MCP connectors of each tenant.
use orbit_control.Prelude.{
  ℕ, String, ◌≡◌, ◌≢◌, ◌↔◌, ◌⊎◌, ◌||◌, Option, none, some, List, lookup, insert, str_eq,
  if◌then◌else◌, arith, eq_iff, Occurs,
}
use orbit_control.Outcome.{not_found, storage, Result, ok, err}
use orbit_control.Catalog.{McpConnectorRecord, Row, Store, for_tenant}
use orbit_control.Catalog.Rows.{listing, shown, listing-insert}

abbrev pub created : McpConnectorRecord → ℕ
created c = c.created_at

abbrev pub id_of : McpConnectorRecord → String
id_of c = c.id

pub list_mcp_connectors : Store → String → Result (List McpConnectorRecord)
list_mcp_connectors s tenant_id =
    for_tenant tenant_id (ok (listing created id_of tenant_id s.connectors))

-- a transport that is left out is stdio
abbrev pub with_transport : McpConnectorRecord → McpConnectorRecord
with_transport c = record c { transport = if str_eq c.transport "" then "stdio" else c.transport }

create_new :
    Store
    → String
    → McpConnectorRecord
    → Option (Row McpConnectorRecord)
    → Store × Result (Unit {0})
create_new s tenant_id c (some row) = (s, err storage)
create_new s tenant_id c none = (
  record s {
    connectors =
        insert c.id (record { tenant_id = tenant_id; rec = with_transport c }) s.connectors;
  },
  ok tt,
)

pub create_mcp_connector : Store → String → McpConnectorRecord → Store × Result (Unit {0})
unfolding create_new
create_mcp_connector s tenant_id c =
    if str_eq tenant_id "" || str_eq c.id ""
    then (s, err not_found)
    else create_new s tenant_id c (lookup c.id s.connectors)

-- Tenants are kept apart: a connector with an id that is new and not empty, created for a tenant
-- with a name, stands from then on in the listing of that tenant, as it was given but with the
-- transport "stdio" where none was, in the listing of no other tenant, and every other connector is
-- listed as before, for every tenant with a name.
pub create_mcp_connector-isolated :
    (s : Store) (owner reader : String) (c x : McpConnectorRecord)
    → owner ≢ ""
    → reader ≢ ""
    → c.id ≢ ""
    → lookup c.id s.connectors ≡ none
    → Occurs x (shown (list_mcp_connectors (create_mcp_connector s owner c).0 reader)) ↔ (
        ((owner ≡ reader) × (x ≡ with_transport c))
        ⊎ Occurs x (shown (list_mcp_connectors s reader)))
unfolding list_mcp_connectors create_mcp_connector
create_mcp_connector-isolated s owner reader c x h k i n = ground (
  arith,
  eq_iff owner "",
  eq_iff reader "",
  eq_iff c.id "",
  listing-insert created id_of (with_transport c) owner reader c.id s.connectors x n,
)
