-- ===== src/Csv/Import.antt =====
-- `parseCsv` of frontend/js/csv.js with `parseBoolCell`, `parseIseFormat`, `parseSimpleFormat`.
pub mod Laws
use ise_endpoint_portal.Prelude.{
  ℕ, zero, suc, Bool, true, false, ◌||◌, Option, none, some, List, [], ◌∷◌, map, get_elem?,
  if◌then◌else◌, filter_map,
}
use ise_endpoint_portal.Js.Text.{
  Text, codes, truthy, or_empty, trim, to_lower_case, includes_text, last_index, ◌===◌,
}
use ise_endpoint_portal.Csv.Row.{parse_row, strip_quotes}
use ise_endpoint_portal.Csv.Template.{text_lines}
use ise_endpoint_portal.Csv.Mac.{mac_re}

pub data Format : Type 0 where
  ise simple : Format

pub record Item : Type 0 where
  pub mac : Text
  pub group_name : Text
  pub description : Text
  pub static_group : Option Bool
  pub endpoint_type : Text
  pub owner : Text
  pub lokation : Text
  pub authz_vlan : Text
  pub authz_acl : Text
  pub platform_type : Text
  pub valid : Bool

-- `parseBoolCell` on the text of the cell
bool_word : Text → Option Bool
bool_word v =
    if v === []
    then none
    else if v === codes "true" || (v === codes "1" || v === codes "yes")
    then some true
    else if v === codes "false" || (v === codes "0" || v === codes "no")
    then some false
    else none

unfoldable pub parse_bool_cell : Option Text → Option Bool
unfolding bool_word strip_quotes trim to_lower_case ◌===◌
parse_bool_cell raw = bool_word (to_lower_case (strip_quotes (trim (or_empty raw))))

-- `fields[col]`, where `col` may be undefined
abbrev pub cell : List Text → Option ℕ → Option Text
cell fields none = none
cell fields (some i) = get_elem? fields i

-- `stripQuotes((fields[col] || "").trim())`
abbrev pub cell_text : List Text → Option ℕ → Text
cell_text fields col = strip_quotes (trim (or_empty (cell fields col)))

-- `a ?? b` on column indices
abbrev pub or_column : Option ℕ → Option ℕ → Option ℕ
or_column none b = b
or_column (some i) b = some i

abbrev pub static_cell : List Text → Option ℕ → Option Bool
static_cell fields none = none
static_cell fields (some i) = parse_bool_cell (get_elem? fields i)

-- one line of the loop of `parseIseFormat`; `none` is `continue`
unfoldable pub ise_item : List Text → List Text → Option Item
ise_item header fields =
    let col = λ (name : Text). last_index name header in
    let mac = trim (or_empty (cell fields (col (codes "macaddress")))) in
    if truthy mac
    then some (record {
      mac = mac;
      group_name = cell_text fields (col (codes "identitygroup"));
      description = cell_text fields (col (codes "description"));
      static_group =
          static_cell fields
            (or_column (col (codes "staticgroupassignment")) (col (codes "staticassignment")));
      endpoint_type = cell_text fields (col (codes "custom.type"));
      owner = cell_text fields (col (codes "custom.owner"));
      lokation = cell_text fields (col (codes "custom.lokation"));
      authz_vlan = cell_text fields (col (codes "custom.authzvlan"));
      authz_acl = cell_text fields (col (codes "custom.authzacl"));
      platform_type = cell_text fields (col (codes "custom.platformtype"));
      valid = mac_re mac;
    })
    else none

unfoldable pub parse_ise_format : List Text → List Text → List Item
unfolding ise_item
parse_ise_format header lines = filter_map (λ l. ise_item header (parse_row l)) lines

unfoldable pub simple_item : List Text → Item
simple_item parts =
    let part = λ (i : ℕ). or_empty (get_elem? parts i) in
    record {
      mac = part 0;
      group_name = part 1;
      description = part 2;
      static_group = none;
      endpoint_type = part 3;
      owner = part 4;
      lokation = part 5;
      authz_vlan = part 6;
      authz_acl = part 7;
      platform_type = part 8;
      valid = mac_re (trim (part 0));
    }

unfoldable pub parse_simple_format : List Text → List Item
unfolding simple_item
parse_simple_format lines = map (λ l. simple_item (map trim (parse_row l))) lines

-- `firstRow.map((h) => h.trim().toLowerCase())`
unfoldable pub header_lower : Text → List Text
header_lower line = map (λ h. to_lower_case (trim h)) (parse_row line)

-- the three shapes of a file, from its first line on
unfoldable pub parse_lines : List Text → Format × List Item
unfolding header_lower
parse_lines [] = (simple, [])
parse_lines (first ∷ rest) =
    let header = header_lower first in
    if includes_text header (codes "macaddress")
    then (ise, parse_ise_format header rest)
    else if includes_text header (codes "mac")
    then (simple, parse_simple_format rest)
    else (simple, parse_simple_format (first ∷ rest))

unfoldable pub parse_csv : Text → Format × List Item
unfolding parse_lines parse_ise_format parse_simple_format parse_bool_cell text_lines parse_row
    strip_quotes trim to_lower_case includes_text last_index mac_re
parse_csv text = parse_lines (text_lines text)
