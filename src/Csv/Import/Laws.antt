-- ===== src/Csv/Import/Laws.antt =====
-- The parts of `parseCsv`, one equation for each branch that a proof goes through.
use ise_endpoint_portal.Prelude.{
  [], inl, inr, Bool-cases, All, map, ◌≡◌, refl, true, Option, none, some, List, ◌∷◌,
}
use ise_endpoint_portal.Csv.Mac.{mac_re}
use ise_endpoint_portal.Js.Text.Laws.{trim_idem, trim_nil}
use ise_endpoint_portal.Js.Text.{last_index, truthy, or_empty, trim, Text, codes, includes_text}
use ise_endpoint_portal.Csv.Row.{parse_row}
use ise_endpoint_portal.Csv.Template.{text_lines}
use ise_endpoint_portal.Csv.Import.{
  cell, simple_item, parse_simple_format, ise, Item, ise_item, parse_ise_format, header_lower,
  parse_lines, parse_csv,
}

-- an item in front of the others, if the line gave one
abbrev pub keep_item : Option Item → List Item → List Item
keep_item none items = items
keep_item (some item) items = item ∷ items

pub parse_ise_format-cons :
    (header : List Text) (line : Text) (lines : List Text)
    → parse_ise_format header (line ∷ lines)
      ≡ keep_item (ise_item header (parse_row line)) (parse_ise_format header lines)
unfolding parse_ise_format
parse_ise_format-cons header line lines = keep_item_lem (ise_item header (parse_row line))
  where
    keep_item_lem :
        (o : Option Item)
        → (elim o [
          | none ↦ parse_ise_format header lines
          | some b ↦ b ∷ parse_ise_format header lines
        ])
          ≡ keep_item o (parse_ise_format header lines)
    keep_item_lem none = refl
    keep_item_lem (some b) = refl

pub parse_lines-ise :
    (first : Text) (rest : List Text)
    → includes_text (header_lower first) (codes "macaddress") ≡ true
    → parse_lines (first ∷ rest) ≡ (ise, parse_ise_format (header_lower first) rest)
unfolding parse_lines
parse_lines-ise first rest h = rw h

pub parse_csv-lines : (text : Text) → parse_csv text ≡ parse_lines (text_lines text)
unfolding parse_csv
parse_csv-lines text = refl

-- What is said of each imported item: `valid` is the verdict of the pattern on its address.
abbrev pub IsChecked : Item → Type 0
IsChecked item = item.valid ≡ mac_re item.mac

simple_item-IsChecked : (parts : List Text) → IsChecked (simple_item (map trim parts))
unfolding simple_item
simple_item-IsChecked [] = rw trim_nil
simple_item-IsChecked (p ∷ parts) = rw trim_idem

parse_simple_format-IsChecked : (lines : List Text) → All IsChecked (parse_simple_format lines)
unfolding parse_simple_format
parse_simple_format-IsChecked [] = tt
parse_simple_format-IsChecked (l ∷ lines) =
    (simple_item-IsChecked (parse_row l), parse_simple_format-IsChecked lines)

ise_item-IsChecked :
    (header fields : List Text) (items : List Item)
    → All IsChecked items
    → All IsChecked (keep_item (ise_item header fields) items)
unfolding ise_item
ise_item-IsChecked header fields items h =
    elim (Bool-cases
      (truthy (trim (or_empty (cell fields (last_index (codes "macaddress") header)))))) [
        | inl some_mac ↦ rw some_mac (refl, h)
        | inr no_mac ↦ rw no_mac h
      ]

parse_ise_format-IsChecked :
    (header lines : List Text) → All IsChecked (parse_ise_format header lines)
parse_ise_format-IsChecked header [] = unfold parse_ise_format in tt
parse_ise_format-IsChecked header (l ∷ lines) = rw parse_ise_format-cons (
    ise_item-IsChecked header (parse_row l) (parse_ise_format header lines)
      (parse_ise_format-IsChecked header lines))

parse_lines-IsChecked : (lines : List Text) → All IsChecked (parse_lines lines).1
unfolding parse_lines
parse_lines-IsChecked [] = tt
parse_lines-IsChecked (first ∷ rest) =
    elim (Bool-cases (includes_text (header_lower first) (codes "macaddress"))) [
      | inl e ↦ rw e (parse_ise_format-IsChecked (header_lower first) rest)
      | inr e ↦ rw e (elim (Bool-cases (includes_text (header_lower first) (codes "mac"))) [
        | inl m ↦ rw m (parse_simple_format-IsChecked rest)
        | inr m ↦ rw m (parse_simple_format-IsChecked (first ∷ rest))
      ])
    ]

-- Whatever the text and its format, each imported item carries the verdict of `MAC_RE` on the
-- address that it shows.
pub parse_csv-IsChecked : (text : Text) → All IsChecked (parse_csv text).1
parse_csv-IsChecked text = rw parse_csv-lines (parse_lines-IsChecked (text_lines text))
