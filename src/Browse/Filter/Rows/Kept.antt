-- ===== src/Browse/Filter/Rows/Kept.antt =====
-- The rows after sorting, and after all filters are cleared.
use ise_endpoint_portal.Prelude.{
  ◌≡◌, refl, ap, ◌∙◌, inl, inr, Bool, false, not, ◌&&◌, List, [], ◌∷◌, Option, none, some,
  if◌then◌else◌, any, filter, length, Bool-cases, arith,
}
use ise_endpoint_portal.Js.Text.{Text, ◌===◌, split_on}
use ise_endpoint_portal.Browse.Filter.{
  Filters, Input, clear_inputs, set_inputs, apply_filter_snapshot, clear_all, date_time,
}
use ise_endpoint_portal.Browse.Filter.Rows.{
  Row, Page, column_filters, is_decommissioned, filter_rows, apply_filters_to_rows,
}
use ise_endpoint_portal.Browse.Filter.Rows.Shown.{
  filter-filter, filter-same, is_shown, filter_rows-is_shown,
}

-- sorting keeps the rows, each as often as it is there
abbrev pub IsSorting : Page → Type 0
IsSorting page =
    (col : Text) (asc : Bool) (q : Row → Bool) (rows : List Row)
    → length (filter q (page.sorted col asc rows)) ≡ length (filter q rows)

-- In whatever order the list is sorted, it has the rows that every filter lets through, each as often
-- as it was loaded: so many rows meet a test afterwards as meet it and are let through before.
pub apply_filters_to_rows-is_shown :
    (page : Page) (f : Filters) (rows : List Row) (q : Row → Bool)
    → IsSorting page
    → length (filter q (apply_filters_to_rows page f rows))
      ≡ length (filter (λ r. is_shown page f r && q r) rows)
unfolding apply_filters_to_rows
apply_filters_to_rows-is_shown page f rows q h = by_sort f.sort
  where
    unsorted :
        length (filter q (filter_rows page f rows))
        ≡ length (filter (λ r. is_shown page f r && q r) rows)
    unsorted =
        ap length (
          ap (filter q) (filter_rows-is_shown page f rows) ∙ filter-filter (is_shown page f) q rows)

    by_sort :
        (s : Option (Text × Bool))
        → length (
            filter q (elim s [
              | none ↦ filter_rows page f rows
              | some t ↦
                  if any (λ c. c.key === t.0) page.columns
                  then page.sorted t.0 t.1 (filter_rows page f rows)
                  else filter_rows page f rows
            ]))
          ≡ length (filter (λ r. is_shown page f r && q r) rows)
    by_sort none = unsorted
    by_sort (some t) = elim (Bool-cases (any (λ c. c.key === t.0) page.columns)) [
      | inl e ↦ rw e (h t.0 t.1 q (filter_rows page f rows) ∙ unsorted)
      | inr e ↦ rw e unsorted
    ]

column_filters-cleared :
    (page : Page) (inputs : List Input) → column_filters page (clear_inputs inputs) ≡ []
unfolding column_filters
column_filters-cleared page [] = refl
column_filters-cleared page ((c, v) ∷ inputs) = column_filters-cleared page inputs

is_shown-clear_all :
    (page : Page) (columns : List Text) (f : Filters) (r : Row)
    → f.mac_private ≡ false
    → f.marked_only ≡ false
    → is_shown page (clear_all columns f) r ≡ not (is_decommissioned r)
unfolding is_shown clear_all apply_filter_snapshot set_inputs split_on date_time ◌===◌
is_shown-clear_all page columns f r p m =
    rw (column_filters-cleared page f.inputs, p, m) (ground arith)

-- After all filters are cleared, the list shows what was loaded, in that order, but the decommissioned
-- endpoints, if the chips for private and marked addresses are off.
pub apply_filters_to_rows-clear_all :
    (page : Page) (columns : List Text) (f : Filters) (rows : List Row)
    → f.mac_private ≡ false
    → f.marked_only ≡ false
    → apply_filters_to_rows page (clear_all columns f) rows
      ≡ filter (λ r. not (is_decommissioned r)) rows
unfolding apply_filters_to_rows clear_all apply_filter_snapshot
apply_filters_to_rows-clear_all page columns f rows p m =
    filter_rows-is_shown page (clear_all columns f) rows
    ∙ filter-same (is_shown page (clear_all columns f)) (λ r. not (is_decommissioned r))
        (λ r. is_shown-clear_all page columns f r p m) rows
