-- ===== src/Csv/Tests.antt =====
-- Runs of the CSV functions on small files, and the theorems at concrete inputs.
use ise_endpoint_portal.Prelude.{
  ◌≡◌, refl, true, false, none, some, List, [], ◌∷◌, ◌++◌, map, arith, filter_map, All,
}
use ise_endpoint_portal.Js.Text.{◌===◌, Text, codes, has_unit}
use ise_endpoint_portal.Csv.Row.{csv_line, parse_row, read_fields}
use ise_endpoint_portal.Csv.Row.Laws.{parse_row-csv_line, read_fields-parse_row}
use ise_endpoint_portal.Csv.Mac.{mac_re}
use ise_endpoint_portal.Csv.Template.{default_template, parse_template_header, column_names}
use ise_endpoint_portal.Csv.Import.{ise, Item, parse_csv}
use ise_endpoint_portal.Csv.Import.Laws.{IsChecked, parse_csv-IsChecked}
use ise_endpoint_portal.Csv.Export.{Row, row_cells, to_ise_csv}
use ise_endpoint_portal.Csv.Export.RoundTrip.{
  IsOneLine, reimported, parse_csv-to_ise_csv, parse_template_header-to_ise_csv,
}

-- An unquoted line, and a quoted one with a doubled quote and a comma inside.
parse_row-plain : parse_row (codes "a,b,,c") ≡ codes "a" ∷ codes "b" ∷ [] ∷ codes "c" ∷ []
unfolding parse_row
parse_row-plain = refl

parse_row-quotes :
    parse_row (codes "\"a\"\"b\",x,\"c,d\"") ≡ codes "a\"b" ∷ codes "x" ∷ codes "c,d" ∷ [] ∷ []
unfolding parse_row
parse_row-quotes = refl

mac_re_tests :
    (mac_re (codes "aa:BB-01:23:45:6f") ≡ true) × (mac_re (codes "aa:BB:01:23:45") ≡ false)
unfolding mac_re
mac_re_tests = (refl, refl)

-- Without a header each line is read by position.
parse_csv-simple :
    map (λ (i : Item). i.mac ++ i.owner) (parse_csv (codes "AA:BB:CC:DD:EE:FF,g,d,t, me \r\n\n")).1
    ≡ codes "AA:BB:CC:DD:EE:FFme" ∷ []
unfolding parse_csv
parse_csv-simple = refl

abbrev printer : Row
printer = record {
  mac = some (codes "AA:BB:CC:DD:EE:FF");
  name = none;
  group_name = some (codes "Printers");
  description = some (codes "2nd floor, \"left\"");
  static_group = true;
  endpoint_type = none;
  authz_vlan = some (codes "10");
  authz_acl = none;
  lokation = some (codes " B2 ");
  owner = some (codes "it");
  platform_type = none;
  hypervision = some (codes "true");
  vendor = none;
}

-- A value with a line feed is cut at the feed: the file then has one line more.
parse_csv_cuts_line_feeds :
    map
      (λ (i : Item). i.description)
      (parse_csv
        (to_ise_csv default_template (record printer { description = some (codes "a\nb") } ∷ []))).1
    ≡ codes "a" ∷ [] ∷ []
unfolding parse_csv to_ise_csv
parse_csv_cuts_line_feeds = refl

parse_row-csv_line_example :
    parse_row (csv_line (codes "a\"b" ∷ codes "c,d" ∷ [])) ≡ codes "a\"b" ∷ codes "c,d" ∷ [] ∷ []
parse_row-csv_line_example = parse_row-csv_line (codes "a\"b" ∷ codes "c,d" ∷ [])

read_fields-parse_row_example : read_fields 9 (codes "a,\"b\"") ≡ parse_row (codes "a,\"b\"")
read_fields-parse_row_example = read_fields-parse_row 9 (codes "a,\"b\"") (omega arith)

printer-IsOneLine : IsOneLine (row_cells default_template printer)
unfolding row_cells has_unit ◌===◌
printer-IsOneLine = ground arith

parse_csv-to_ise_csv_example :
    parse_csv (to_ise_csv default_template (printer ∷ []))
    ≡ (ise, filter_map reimported (printer ∷ []))
parse_csv-to_ise_csv_example = parse_csv-to_ise_csv (printer ∷ []) (printer-IsOneLine, tt)

abbrev two_columns : List Text
two_columns = codes "MACAddress" ∷ codes " 'Site' " ∷ []

two_columns-IsOneLine : IsOneLine two_columns
unfolding has_unit
two_columns-IsOneLine = ground arith

parse_template_header-to_ise_csv_example :
    parse_template_header (to_ise_csv two_columns (printer ∷ [])) ≡ column_names two_columns
parse_template_header-to_ise_csv_example =
    parse_template_header-to_ise_csv (codes "MACAddress") (codes " 'Site' " ∷ []) (printer ∷ [])
      two_columns-IsOneLine

parse_csv-IsChecked_example : All IsChecked (parse_csv (codes "aabbccddeeff")).1
parse_csv-IsChecked_example = parse_csv-IsChecked (codes "aabbccddeeff")
