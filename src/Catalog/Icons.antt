-- ===== src/Catalog/Icons.antt =====
-- internal/store/memstore/icons.go: the bytes of the catalog's icons, by their source URL.
use orbit_control.Prelude.{
  ℕ, String, ◌≡◌, ◌≢◌, ◌||◌, Option, none, some, List, lookup, ◌==◌, str_eq, if◌then◌else◌, length,
  arith, eq_iff,
}
use orbit_control.Outcome.{not_found, Result, ok, err}
use orbit_control.Catalog.Loading.{put_all, last_put, or_before, lookup-put_all}
use orbit_control.Catalog.{CatalogIcon, Store}

abbrev pub icon_entry : CatalogIcon → Option (String × CatalogIcon)
icon_entry row = if str_eq row.url "" || length row.bytes == 0 then none else some (row.url, row)

pub replace_catalog_icons : Store → String → List CatalogIcon → Store × Result (Unit {0})
replace_catalog_icons s tenant_id rows =
    if str_eq tenant_id ""
    then (s, err not_found)
    else (record s { icons = put_all icon_entry rows s.icons }, ok tt)

pub icon_of : Option CatalogIcon → Result (String × List ℕ)
icon_of none = err not_found
icon_of (some row) = ok (row.content_type, row.bytes)

pub catalog_icon : Store → String → String → Result (String × List ℕ)
unfolding icon_of
catalog_icon s tenant_id url =
    if str_eq tenant_id "" || str_eq url "" then err not_found else icon_of (lookup url s.icons)

-- Icons are added to: after a replacement, an icon is what the last row for its URL with bytes says,
-- and what it was before where no such row is there.
pub replace_catalog_icons-keeps :
    (s : Store) (tenant reader url : String) (rows : List CatalogIcon)
    → tenant ≢ ""
    → reader ≢ ""
    → url ≢ ""
    → catalog_icon (replace_catalog_icons s tenant rows).0 reader url
      ≡ icon_of (or_before (last_put icon_entry url rows) (lookup url s.icons))
unfolding catalog_icon replace_catalog_icons
replace_catalog_icons-keeps s tenant reader url rows h k i = ground (
  arith,
  eq_iff tenant "",
  eq_iff reader "",
  eq_iff url "",
  lookup-put_all icon_entry url rows s.icons,
)
