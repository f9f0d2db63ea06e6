-- ===== src/Csv/Export.antt =====
-- `toIseCsv` of frontend/js/csv.js. The template is an argument: the source reads it by
-- `getCsvTemplate`.
pub mod RoundTrip
use ise_endpoint_portal.Prelude.{
  ℕ, Bool, true, false, Option, none, some, List, [], ◌∷◌, ◌++◌, map, length, set, replicate,
  if◌then◌else◌,
}
use ise_endpoint_portal.Js.Text.{Text, codes, or_empty, or_text, join, last_index}
use ise_endpoint_portal.Csv.Row.{csv_line}

-- The fields of an endpoint row that the export reads; `static_group` by its truth value.
pub record Row : Type 0 where
  pub mac : Option Text
  pub name : Option Text
  pub group_name : Option Text
  pub description : Option Text
  pub static_group : Bool
  pub endpoint_type : Option Text
  pub authz_vlan : Option Text
  pub authz_acl : Option Text
  pub lokation : Option Text
  pub owner : Option Text
  pub platform_type : Option Text
  pub hypervision : Option Text
  pub vendor : Option Text

-- `if (column in colIdx) cells[colIdx[column]] = value`
abbrev pub put : List Text → Text → Text → List Text → List Text
put template column value cells = elim (last_index column template) [
  | none ↦ cells
  | some i ↦ set cells i value
]

abbrev pub bool_text : Bool → Text
bool_text b = if b then codes "true" else codes "false"

-- the cells of one row, in the template's order
unfoldable pub row_cells : List Text → Row → List Text
unfolding last_index
row_cells template r =
    let blank = replicate (length template) [] in
    let a = put template (codes "MACAddress") (or_empty (or_text r.mac r.name)) blank in
    let b = put template (codes "IdentityGroup") (or_empty r.group_name) a in
    let c = put template (codes "Description") (or_empty r.description) b in
    let d = put template (codes "StaticAssignment") (bool_text r.static_group) c in
    let e = put template (codes "StaticGroupAssignment") (bool_text r.static_group) d in
    let f = put template (codes "CUSTOM.Type") (or_empty r.endpoint_type) e in
    let g = put template (codes "CUSTOM.AuthzVlan") (or_empty r.authz_vlan) f in
    let h = put template (codes "CUSTOM.AuthzACL") (or_empty r.authz_acl) g in
    let i = put template (codes "CUSTOM.Lokation") (or_empty r.lokation) h in
    let j = put template (codes "CUSTOM.Owner") (or_empty r.owner) i in
    let k = put template (codes "CUSTOM.PlatformType") (or_empty r.platform_type) j in
    let l = put template (codes "CUSTOM.HypervisionISEPortal") (or_empty r.hypervision) k in
    put template (codes "Vendor") (or_empty r.vendor) l

unfoldable pub to_ise_csv : List Text → List Row → Text
unfolding row_cells csv_line join
to_ise_csv template rows =
    csv_line template
    ++ (codes "\n"
        ++ (join (codes "\n") (map (λ r. csv_line (row_cells template r)) rows) ++ codes "\n"))
