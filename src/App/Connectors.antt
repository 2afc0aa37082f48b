-- ===== src/App/Connectors.antt =====
-- internal/app/catalog.go and experts.go: the headers of a connector, how they are stored, and the
-- snapshot of a connector that a worker gets. `lower` is strings.ToLower.
pub mod Created
pub mod Snapshots
pub mod Headers
use Prim.Native.Char.{code}
use Prim.Native.String
use orbit_control.Prelude.{
  ℕ, ◌+◌, String, Bool, true, false, not, ◌&&◌, ◌||◌, Option, none, some, List, [], ◌∷◌, str_eq,
  leb, ◌==◌, if◌then◌else◌, contains, Assoc, lookup,
}
use orbit_control.Outcome.{Error, invalid, field_error, Result, ok, err, ◌>>=◌, ◌>>◌}
use orbit_control.Text.{trim_space, ◌⧺◌}
use orbit_control.Value.{Value, text, list, object, Values, nil, cons, Fields, end, field}
use orbit_control.Config.{text_values, object_values}
use orbit_control.Catalog.{McpConnectorRecord}
use orbit_control.App.Refs.{entry_path}

pub record HeaderRef : Type 0 where
  pub name : String
  pub env : String

is_letter : ℕ → Bool
is_letter c = leb b'A' c && leb c b'Z' || leb b'a' c && leb c b'z'

is_digit : ℕ → Bool
is_digit c = leb b'0' c && leb c b'9'

is_env_char : ℕ → Bool
unfolding is_letter is_digit
is_env_char c = is_letter c || is_digit c || c == b'_'

-- every character passes the test
all_chars : (ℕ → Bool) → String → Bool
all_chars test String.[] = true
all_chars test (String.◌∷◌ c s) = let rest = all_chars test s in test (code c) && rest

-- envNamePattern: ^[A-Za-z_][A-Za-z0-9_]*$
unfoldable pub is_env_name : String → Bool
unfolding is_letter is_env_char all_chars
is_env_name String.[] = false
is_env_name (String.◌∷◌ c s) = (is_letter (code c) || code c == b'_') && all_chars is_env_char s

-- headerNamePattern: one or more of the characters of a token
is_token_char : ℕ → Bool
unfolding is_letter is_digit
is_token_char c =
    is_letter c
    || is_digit c
    || c == b'!'
    || c == b'#'
    || c == b'$'
    || c == b'%'
    || c == b'&'
    || c == 39
    || c == b'*'
    || c == b'+'
    || c == b'-'
    || c == b'.'
    || c == b'^'
    || c == b'_'
    || c == b'`'
    || c == b'|'
    || c == b'~'

unfoldable pub is_header_name : String → Bool
unfolding is_token_char all_chars
is_header_name String.[] = false
is_header_name (String.◌∷◌ c s) = is_token_char (code c) && all_chars is_token_char s

-- strings.Contains(item, "=")
has_equals : String → Bool
has_equals String.[] = false
has_equals (String.◌∷◌ c s) = let rest = has_equals s in code c == b'=' || rest

unfoldable pub trim_non_empty : List String → List String
trim_non_empty [] = []
trim_non_empty (item ∷ items) =
    let rest = trim_non_empty items in
    if str_eq (trim_space item) "" then rest else trim_space item ∷ rest

any_equals : List String → Bool
unfolding has_equals
any_equals [] = false
any_equals (item ∷ items) = let rest = any_equals items in has_equals item || rest

abbrev pub with_value : Error
with_value = invalid "name must not include a value"

unfoldable pub clean_names : List String → Result (List String)
unfolding any_equals
clean_names items =
    let out = trim_non_empty items in if any_equals out then err with_value else ok out

all_env_names : List String → Bool
all_env_names [] = true
all_env_names (item ∷ items) = let rest = all_env_names items in is_env_name item && rest

unfoldable pub clean_env_names : List String → Result (List String)
unfolding all_env_names
clean_env_names items =
    clean_names items >>= λ out. if all_env_names out then ok out else err with_value

abbrev pub trim_ref : HeaderRef → HeaderRef
trim_ref r = record { name = trim_space r.name; env = trim_space r.env }

-- a reference as it is stored
pub encode_ref : HeaderRef → String
encode_ref r = r.name ⧺ ":" ⧺ r.env

pub encode_refs : List HeaderRef → List String
unfolding encode_ref
encode_refs [] = []
encode_refs (r ∷ rs) = encode_ref r ∷ encode_refs rs

module _ (lower : String → String) where
  check_ref : List String → HeaderRef → Result (Unit {0})
  check_ref seen r =
      if not (is_header_name r.name) || not (is_env_name r.env)
      then err (invalid "header ref must be a header name and an environment name")
      else if contains (lower r.name) seen
      then err (invalid "duplicate header name")
      else ok tt

  -- The loop: the names so far, folded, and the references left.
  clean_from : List String → List HeaderRef → Result (List HeaderRef)
  unfolding check_ref
  clean_from seen [] = ok []
  clean_from seen (item ∷ items) =
      let r = trim_ref item in
      let skipped = clean_from seen items in
      let rest = clean_from (lower r.name ∷ seen) items in
      if str_eq r.name "" && str_eq r.env ""
      then skipped
      else check_ref seen r >> (rest >>= λ kept. ok (r ∷ kept))

  -- cleanHeaderRefs, with the references and their stored form
  unfoldable pub clean_header_refs : List HeaderRef → Result (List HeaderRef × List String)
  unfolding clean_from encode_refs
  clean_header_refs items = clean_from [] items >>= λ kept. ok (kept, encode_refs kept)

-- strings.Cut(item, ":"): the text before and after the first colon, if there is one
pub cut : String → Option (String × String)
cut String.[] = none
cut (String.◌∷◌ c s) =
    let rest = cut s in
    if code c == b':'
    then some (String.[], s)
    else (elim rest [ none ↦ none | some (before, after) ↦ some (String.◌∷◌ c before, after) ])

decoded : Option (String × String) → List HeaderRef → List HeaderRef
decoded none rest = rest
decoded (some (name, env)) rest =
    if str_eq name "" || str_eq env "" then rest else record { name = name; env = env } ∷ rest

pub decode_header_refs : List String → List HeaderRef
unfolding decoded cut
decode_header_refs [] = []
decode_header_refs (item ∷ items) = decoded (cut item) (decode_header_refs items)

header_entries : List HeaderRef → Values
header_entries [] = nil
header_entries (r ∷ rs) =
    cons (object (field "name" (text r.name) (field "env" (text r.env) end))) (header_entries rs)

-- connectorSnapshot
unfoldable pub connector_snapshot : McpConnectorRecord → Fields
unfolding header_entries
connector_snapshot rec = field "id" (text rec.id) (
    field "name" (text rec.name) (
      field "transport" (text (if str_eq rec.transport "" then "stdio" else rec.transport)) (
        field "command" (text rec.command) (
          field "args" (list (text_values rec.args)) (
            field "env_refs" (list (text_values rec.env_refs)) (
              field "url" (text rec.url) (
                field "header_refs" (list (header_entries (decode_header_refs rec.header_refs)))
                  end)))))))

-- The loop of `snapshotsFor`; `index` is the position of the first id.
snapshots_from : Assoc McpConnectorRecord → ℕ → List String → Result (List Fields)
snapshots_from by_id index [] = ok []
snapshots_from by_id index (id ∷ ids) =
    let rest = snapshots_from by_id (index + 1) ids in
    elim (lookup id by_id) [
      | none ↦ err (field_error "CONNECTOR_NOT_FOUND" (entry_path "connector_ids" index))
      | some rec ↦ rest >>= λ snapshots. ok (connector_snapshot rec ∷ snapshots)
    ]

pub snapshots_for : Assoc McpConnectorRecord → List String → Result (List Fields)
unfolding snapshots_from
snapshots_for by_id ids = snapshots_from by_id 0 ids

pub record McpConnectorInput : Type 0 where
  pub name : String
  pub transport : String
  pub command : String
  pub args : List String
  pub env_refs : List String
  pub url : String
  pub header_refs : List HeaderRef
  pub default_open : Bool

-- How a connector is reached: its command, its arguments and its URL.
abbrev pub Target : Type 0
Target = String × List String × String

-- `checked` is what validateMCPHTTPURL makes of the URL.
target_of : String → McpConnectorInput → Result String → Result Target
target_of transport in_ checked =
    if str_eq transport "stdio"
    then (if str_eq (trim_space in_.command) ""
        then err (invalid "name and command are required")
        else ok (trim_space in_.command, trim_non_empty in_.args, ""))
    else checked >>= λ url. ok ("", [], url)

or_stdio : String → String
or_stdio transport = if str_eq transport "" then "stdio" else transport

check_transport : String → Result (Unit {0})
check_transport transport =
    if str_eq transport "stdio" || str_eq transport "streamable_http"
    then ok tt
    else err (invalid "transport must be stdio or streamable_http")

check_name : String → Result (Unit {0})
check_name name = if str_eq name "" then err (invalid "name is required") else ok tt

-- CreateMcpConnector, up to the record that it stores, and the headers that it answers with.
pub new_connector :
    (String → String)
    → Result String
    → String
    → ℕ
    → McpConnectorInput
    → Result (McpConnectorRecord × List HeaderRef)
unfolding target_of or_stdio check_transport check_name
new_connector lower checked id now in_ = do
  let name = trim_space in_.name
  let transport = or_stdio (trim_space in_.transport)
  check_name name
  check_transport transport
  refs ← clean_env_names in_.env_refs
  headers ← clean_header_refs lower in_.header_refs
  target ← target_of transport in_ checked
  ok (
    record {
      id = id;
      name = name;
      transport = transport;
      command = target.0;
      args = target.1;
      env_refs = refs;
      url = target.2;
      header_refs = headers.1;
      default_open = in_.default_open;
      created_at = now;
    },
    headers.0,
  )
