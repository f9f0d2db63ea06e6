-- ===== src/Csv/Export/RoundTrip.antt =====
-- Importing what was exported with the default template.
use mathlib.Core.List.{append_assoc}
use mathlib.Core.Path.{ap₂}
use ise_endpoint_portal.Prelude.{
  ◌≡◌, refl, sym, ap, ◌∙◌, Bool, true, false, Option, none, some, List, [], ◌∷◌, ◌++◌, map, arith,
  if◌then◌else◌, All, filter_map,
}
use ise_endpoint_portal.Js.Text.{
  ◌===◌, Text, codes, truthy, or_empty, or_text, has_unit, trim, join, last_index, replace_all,
  includes_text, to_lower_case,
}
use ise_endpoint_portal.Js.Text.Laws.{has_unit-append}
use ise_endpoint_portal.Csv.Row.{quote, comma, csv_line, strip_quotes}
use ise_endpoint_portal.Csv.Row.Laws.{doubled, csv_quote-doubled, csv_line-cons, parse_row-csv_line}
use ise_endpoint_portal.Csv.Mac.{mac_re}
use ise_endpoint_portal.Csv.Template.{
  column_names, parse_template_header, default_template, text_lines,
}
use ise_endpoint_portal.Csv.Template.Laws.{
  parse_template_header-line, IsQuotedLine, text_lines-line, text_lines_nil,
}
use ise_endpoint_portal.Csv.Import.{
  ise, Item, ise_item, header_lower, parse_ise_format, parse_lines, parse_csv, parse_bool_cell,
}
use ise_endpoint_portal.Csv.Import.Laws.{
  keep_item, parse_ise_format-cons, parse_lines-ise, parse_csv-lines,
}
use ise_endpoint_portal.Csv.Export.{Row, bool_text, row_cells, to_ise_csv}

-- No value holds a line feed.
abbrev pub IsOneLine : List Text → Type 0
IsOneLine = All (λ c. has_unit b'\n' c ≡ false)

has_unit-doubled : (s : Text) → has_unit b'\n' (doubled s) ≡ has_unit b'\n' s
unfolding has_unit replace_all
has_unit-doubled [] = refl
has_unit-doubled (c ∷ s) = ground (arith, has_unit-doubled s)

-- What an import makes of an exported row; `none` where the row has no address.
pub reimported : Row → Option Item
reimported r =
    let mac = trim (or_empty (or_text r.mac r.name)) in
    if truthy mac
    then some (record {
      mac = mac;
      group_name = strip_quotes (trim (or_empty r.group_name));
      description = strip_quotes (trim (or_empty r.description));
      static_group = some r.static_group;
      endpoint_type = strip_quotes (trim (or_empty r.endpoint_type));
      owner = strip_quotes (trim (or_empty r.owner));
      lokation = strip_quotes (trim (or_empty r.lokation));
      authz_vlan = strip_quotes (trim (or_empty r.authz_vlan));
      authz_acl = strip_quotes (trim (or_empty r.authz_acl));
      platform_type = strip_quotes (trim (or_empty r.platform_type));
      valid = mac_re mac;
    })
    else none

has_unit-between : (s : Text) → has_unit b'\n' (quote ∷ comma ∷ quote ∷ s) ≡ has_unit b'\n' s
unfolding has_unit
has_unit-between s = refl

csv_line-IsQuotedLine :
    (c : Text) (cells : List Text) → IsOneLine (c ∷ cells) → IsQuotedLine (csv_line (c ∷ cells))
csv_line-IsQuotedLine c [] h = record {
  inner = doubled c;
  shape = unfold csv_line in csv_quote-doubled c;
  no_newline = rw has_unit-doubled h.0;
}
csv_line-IsQuotedLine c (d ∷ cells) h =
    let tail = csv_line-IsQuotedLine d cells h.1 in
    record {
      inner = doubled c ++ quote ∷ comma ∷ quote ∷ tail.inner;
      shape = rw (csv_line-cons, tail.shape) (rw append_assoc);
      no_newline = rw (has_unit-append, has_unit-doubled, h.0, has_unit-between) tail.no_newline;
    }

header-default :
    header_lower (csv_line default_template) ≡ map to_lower_case (default_template ++ [] ∷ [])
unfolding header_lower
header-default = rw (parse_row-csv_line) (unfold to_lower_case trim in refl)

-- the column names as the importer compares them
abbrev header_names : List Text
header_names = map to_lower_case (default_template ++ [] ∷ [])

parse_bool_cell-bool_text : (b : Bool) → parse_bool_cell (some (bool_text b)) ≡ some b
unfolding parse_bool_cell
parse_bool_cell-bool_text true = refl
parse_bool_cell-bool_text false = refl

ise_item-row_cells :
    (r : Row) → ise_item header_names (row_cells default_template r ++ [] ∷ []) ≡ reimported r
unfolding ise_item row_cells reimported last_index to_lower_case ◌===◌
ise_item-row_cells r = rw (parse_bool_cell-bool_text r.static_group)

-- the lines behind the header
abbrev row_lines : List Row → List Text
row_lines = map (λ r. csv_line (row_cells default_template r))

filter_map-keep_item :
    (r : Row) (rows : List Row)
    → filter_map reimported (r ∷ rows) ≡ keep_item (reimported r) (filter_map reimported rows)
filter_map-keep_item r rows = keep (reimported r)
  where
    keep :
        (o : Option Item)
        → (elim o [ none ↦ filter_map reimported rows | some b ↦ b ∷ filter_map reimported rows ])
          ≡ keep_item o (filter_map reimported rows)
    keep none = refl
    keep (some b) = refl

parse_ise_format-row_lines :
    (rows : List Row) → parse_ise_format header_names (row_lines rows) ≡ filter_map reimported rows
parse_ise_format-row_lines [] = unfold parse_ise_format in refl
parse_ise_format-row_lines (r ∷ rows) =
    parse_ise_format-cons header_names (csv_line (row_cells default_template r)) (row_lines rows)
    ∙ ap
        (λ fields.
          keep_item (ise_item header_names fields) (parse_ise_format header_names (row_lines rows)))
        (parse_row-csv_line (row_cells default_template r))
    ∙ ap₂ keep_item (ise_item-row_cells r) (parse_ise_format-row_lines rows)
    ∙ sym (filter_map-keep_item r rows)

row_line-IsQuotedLine :
    (r : Row)
    → IsOneLine (row_cells default_template r)
    → IsQuotedLine (csv_line (row_cells default_template r))
unfolding row_cells ◌===◌
row_line-IsQuotedLine r h = csv_line-IsQuotedLine _ _ h

text_lines-join-cons :
    (r t : Row) (rows : List Row)
    → IsQuotedLine (csv_line (row_cells default_template r))
    → text_lines (join (codes "\n") (row_lines (t ∷ rows)) ++ codes "\n") ≡ row_lines (t ∷ rows)
    → text_lines (join (codes "\n") (row_lines (r ∷ t ∷ rows)) ++ codes "\n")
      ≡ row_lines (r ∷ t ∷ rows)
unfolding join
text_lines-join-cons r t rows q e =
    rw append_assoc (text_lines-line _ q ∙ ap (◌∷◌ (csv_line (row_cells default_template r))) e)

text_lines-joined :
    (rows : List Row)
    → All (λ r. IsOneLine (row_cells default_template r)) rows
    → text_lines (join (codes "\n") (row_lines rows) ++ codes "\n") ≡ row_lines rows
text_lines-joined [] h = unfold text_lines join in refl
text_lines-joined (r ∷ []) h =
    unfold join in text_lines-line [] (row_line-IsQuotedLine r h.0) ∙ rw text_lines_nil
text_lines-joined (r ∷ t ∷ rows) h =
    text_lines-join-cons r t rows (row_line-IsQuotedLine r h.0) (text_lines-joined (t ∷ rows) h.1)

default-IsOneLine : IsOneLine default_template
unfolding has_unit
default-IsOneLine = ground arith

to_ise_csv-lines :
    (rows : List Row)
    → to_ise_csv default_template rows
      ≡ csv_line default_template
        ++ (codes "\n" ++ (join (codes "\n") (row_lines rows) ++ codes "\n"))
unfolding to_ise_csv
to_ise_csv-lines rows = refl

to_ise_csv-header :
    (template : List Text) (rows : List Row)
    → to_ise_csv template rows
      ≡ csv_line template
        ++ b'\n'
          ∷ (join (codes "\n") (map (λ r. csv_line (row_cells template r)) rows) ++ codes "\n")
unfolding to_ise_csv
to_ise_csv-header template rows = refl

text_lines-to_ise_csv :
    (rows : List Row)
    → All (λ r. IsOneLine (row_cells default_template r)) rows
    → text_lines (to_ise_csv default_template rows) ≡ csv_line default_template ∷ row_lines rows
text_lines-to_ise_csv rows h = rw to_ise_csv-lines (
    text_lines-line _ (csv_line-IsQuotedLine _ _ default-IsOneLine)
    ∙ ap (◌∷◌ (csv_line default_template)) (text_lines-joined rows h))

column_names-append_empty : (cols : List Text) → column_names (cols ++ [] ∷ []) ≡ column_names cols
unfolding trim strip_quotes
column_names-append_empty [] = refl
column_names-append_empty (c ∷ cs) = ground (arith, column_names-append_empty cs)

-- The template that is read from the header of an exported file is the template it was exported
-- with, each name trimmed and freed of one pair of single quotes, and empty names left out.
-- Provided the template has a column and no column name holds a line feed.
pub parse_template_header-to_ise_csv :
    (c : Text) (cols : List Text) (rows : List Row)
    → IsOneLine (c ∷ cols)
    → parse_template_header (to_ise_csv (c ∷ cols) rows) ≡ column_names (c ∷ cols)
parse_template_header-to_ise_csv c cols rows h = rw to_ise_csv-header (
    parse_template_header-line _ (csv_line-IsQuotedLine c cols h)
    ∙ rw parse_row-csv_line (column_names-append_empty (c ∷ cols)))

-- Exporting rows with the default template and importing the file gives the ISE format, and, in
-- order, one item for each row that has an address: each field trimmed and freed of one pair of
-- single quotes, and the group assignment as it was. Provided no exported value holds a line feed.
pub parse_csv-to_ise_csv :
    (rows : List Row)
    → All (λ r. IsOneLine (row_cells default_template r)) rows
    → parse_csv (to_ise_csv default_template rows) ≡ (ise, filter_map reimported rows)
parse_csv-to_ise_csv rows h =
    parse_csv-lines (to_ise_csv default_template rows)
    ∙ ap parse_lines (text_lines-to_ise_csv rows h)
    ∙ parse_lines-ise (csv_line default_template) (row_lines rows)
        (rw header-default (unfold includes_text to_lower_case ◌===◌ in refl))
    ∙ rw header-default (ap (λ (items : List Item). (ise, items)) (parse_ise_format-row_lines rows))
