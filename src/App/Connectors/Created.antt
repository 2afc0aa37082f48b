-- ===== src/App/Connectors/Created.antt =====
-- A connector that is created and one that is read.
use mathlib.Core.Path.{subst}
use orbit_control.Prelude.{
  ℕ, String, List, ◌≡◌, Bool-cases, inl, inr, eq_of_str_eq, refl, sym, ap, ◌∙◌, arith, str_eq,
  if◌then◌else◌,
}
use orbit_control.Outcome.{Result, ok, then-ok, bind-ok, ok_inj}
use orbit_control.Text.{trim_space}
use orbit_control.Catalog.{McpConnectorRecord}
use orbit_control.App.Connectors.{
  McpConnectorInput, HeaderRef, new_connector, check_name, check_transport, or_stdio, target_of,
  clean_env_names, clean_header_refs, decode_header_refs,
}
use orbit_control.App.Connectors.Headers.{clean_header_refs-decoded}
use orbit_control.App.Library.{McpConnector, connector_from_record, create_mcp_connector}

transport_set : (t : String) → check_transport t ≡ ok tt → (if str_eq t "" then "stdio" else t) ≡ t
unfolding check_transport
transport_set t h = elim (Bool-cases (str_eq t "")) [
  | inl none_ ↦
      let refused = subst (λ u. check_transport u ≡ ok tt) (eq_of_str_eq t "" none_) h in
      ground arith
  | inr set ↦ rw set refl
]

-- The record that a creation stores has a transport, and its headers read back as they were given.
new_connector-read :
    (lower : String → String) (checked : Result String) (id : String) (now : ℕ)
    (in_ : McpConnectorInput) (made : McpConnectorRecord × List HeaderRef)
    → new_connector lower checked id now in_ ≡ ok made
    → ((if str_eq (made.0).transport "" then "stdio" else (made.0).transport) ≡ (made.0).transport)
      × (decode_header_refs (made.0).header_refs ≡ made.1)
unfolding new_connector
new_connector-read lower checked id now in_ made h =
    let transport = or_stdio (trim_space in_.transport) in
    let (named, h₁) = then-ok (check_name (trim_space in_.name)) _ h in
    let (known, h₂) = then-ok (check_transport transport) _ h₁ in
    let (refs, r, h₃) = bind-ok (clean_env_names in_.env_refs) _ h₂ in
    let (headers, d, h₄) = bind-ok (clean_header_refs lower in_.header_refs) _ h₃ in
    let (target, t, h₅) = bind-ok (target_of transport in_ checked) _ h₄ in
    let same = ok_inj _ made h₅ in
    let (decoded, fresh) = clean_header_refs-decoded lower in_.header_refs headers.0 headers.1 d in
    (
      subst
          (λ m. (if str_eq (m.0).transport "" then "stdio" else (m.0).transport) ≡ (m.0).transport)
          same (transport_set transport known),
      ap (λ m. decode_header_refs (m.0).header_refs) (sym same) ∙ decoded ∙ ap (λ m. m.1) same,
    )

-- What a creation of a connector answers with is what reading the record that it stored shows, at any
-- later time.
pub create_mcp_connector-read :
    (stamp : ℕ → String) (lower : String → String) (checked : Result String)
    (stored : McpConnectorRecord → Result (Unit {0})) (id : String) (now : ℕ)
    (in_ : McpConnectorInput) (c : McpConnector)
    → create_mcp_connector stamp lower checked stored id now in_ ≡ ok c
    → (rec : McpConnectorRecord) × (stored rec ≡ ok tt) × (connector_from_record stamp rec ≡ c)
unfolding create_mcp_connector connector_from_record
create_mcp_connector-read stamp lower checked stored id now in_ c h =
    let (made, n, h₁) = bind-ok (new_connector lower checked id now in_) _ h in
    let (kept, h₂) = then-ok (stored made.0) _ h₁ in
    let (transport, headers) = new_connector-read lower checked id now in_ made n in
    (made.0, kept, rw (transport, headers) (ok_inj _ c h₂))
