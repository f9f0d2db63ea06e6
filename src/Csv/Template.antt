-- ===== src/Csv/Template.antt =====
-- The column template of frontend/js/csv.js: `getCsvTemplate`, `setCsvTemplate`,
-- `extendTemplateWithPortalColumns`, `resetCsvTemplate`, `parseTemplateHeader`.
-- The stored text is represented by the value that `JSON.parse` reads from it.
pub mod Laws
use ise_endpoint_portal.Prelude.{
  ℕ, Bool, true, false, not, Option, none, some, List, [], ◌∷◌, ◌++◌, map, filter, if◌then◌else◌,
  ◌==◌,
}
use ise_endpoint_portal.Js.Text.{Text, codes, truthy, trim, prepend, includes_text}
use ise_endpoint_portal.Csv.Row.{parse_row, strip_quotes}

abbrev pub default_template : List Text
default_template =
    codes "MACAddress"
    ∷ codes "IdentityGroup"
    ∷ codes "Description"
    ∷ codes "StaticGroupAssignment"
    ∷ codes "CUSTOM.Type"
    ∷ codes "CUSTOM.Owner"
    ∷ codes "CUSTOM.Lokation"
    ∷ codes "CUSTOM.AuthzVlan"
    ∷ codes "CUSTOM.AuthzACL"
    ∷ codes "CUSTOM.PlatformType"
    ∷ codes "CUSTOM.HypervisionISEPortal"
    ∷ []

-- What localStorage holds under the template's key.
pub data Stored : Type 0 where
  absent unreadable other_value : Stored
  columns : List Text → Stored

unfoldable pub get_csv_template : Stored → List Text
get_csv_template (columns (c ∷ cs)) = c ∷ cs
get_csv_template _ = default_template

abbrev pub set_csv_template : List Text → Stored → Stored
set_csv_template cols s = columns cols

abbrev pub reset_csv_template : Stored → Stored
reset_csv_template s = absent

unfoldable pub extend_template : List Text → List Text
extend_template cols = cols ++ filter (λ c. not (includes_text cols c)) default_template

-- `text.split(/\r?\n/)`
unfoldable pub split_lines : Text → List Text
split_lines [] = [] ∷ []
split_lines (c ∷ []) = if c == b'\n' then [] ∷ [] ∷ [] else (c ∷ []) ∷ []
split_lines (c ∷ d ∷ s) = elim (c == b'\n') [
  | true ↦ [] ∷ split_lines (d ∷ s)
  | false ↦ elim (c == b'\r') [
    | true ↦ elim (d == b'\n') [
      | true ↦ [] ∷ split_lines s
      | false ↦ prepend c (split_lines (d ∷ s))
    ]
    | false ↦ prepend c (split_lines (d ∷ s))
  ]
]

-- `text.split(/\r?\n/).filter((l) => l.trim())`
unfoldable pub text_lines : Text → List Text
unfolding split_lines trim
text_lines text = filter (λ l. truthy (trim l)) (split_lines text)

-- `text.replace(/^\uFEFF/, "")`
abbrev pub strip_bom : Text → Text
strip_bom [] = []
strip_bom (c ∷ s) = if c == 0xfeff then s else c ∷ s

-- the names in the fields of a header line
abbrev pub column_names : List Text → List Text
column_names fields = filter truthy (map (λ h. trim (strip_quotes (trim h))) fields)

first_line_names : List Text → List Text
first_line_names [] = []
first_line_names (l ∷ ls) = column_names (parse_row l)

unfoldable pub parse_template_header : Text → List Text
unfolding first_line_names text_lines parse_row strip_quotes trim
parse_template_header text = first_line_names (text_lines (strip_bom text))
