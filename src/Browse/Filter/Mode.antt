-- ===== src/Browse/Filter/Mode.antt =====
-- When all rows have to be loaded, and the order in which they are shown.
use ise_endpoint_portal.Prelude.{
  ◌≡◌, refl, ap, ◌∙◌, Bool, true, false, ◌||◌, List, [], ◌∷◌, Option, none, some, if◌then◌else◌,
  any, arith,
}
use ise_endpoint_portal.Js.Text.{Text, ◌===◌, truthy, trim}
use ise_endpoint_portal.Js.Text.Laws.{===_refl, trim_nil}
use ise_endpoint_portal.Browse.Filter.{
  Input, Filters, clear_inputs, set_inputs, apply_filter_snapshot, needs_filter_mode, clear_all,
  next_sort, click_header,
}

blank-clear_inputs :
    (inputs : List Input) → any (λ i. truthy (trim i.1)) (clear_inputs inputs) ≡ false
blank-clear_inputs [] = refl
blank-clear_inputs ((c, v) ∷ inputs) = rw trim_nil (blank-clear_inputs inputs)

-- After all filters are cleared, only the two chips for private and marked addresses can still call
-- for all rows, and they do if they are set.
needs_filter_mode-clear_all :
    (columns : List Text) (f : Filters)
    → needs_filter_mode (clear_all columns f) ≡ (f.mac_private || f.marked_only)
unfolding needs_filter_mode clear_all apply_filter_snapshot set_inputs ◌===◌
needs_filter_mode-clear_all columns f = rw (blank-clear_inputs f.inputs) (ground arith)

next_sort-first :
    (col : Text) (s : Option (Text × Bool))
    → ((c : Text) (asc : Bool) → s ≡ some (c, asc) → (c === col) ≡ false)
    → next_sort col s ≡ some (col, true)
next_sort-first col none k = refl
next_sort-first col (some (c, asc)) k = rw (k c asc refl)

next_sort-again :
    (col : Text) (asc : Bool)
    → next_sort col (some (col, asc)) ≡ (if asc then some (col, false) else none)
next_sort-again col asc = rw (===_refl col)

-- Three clicks on the header of a column that the list is not sorted by sort it by that column,
-- first ascending, then descending, and then not at all, and change nothing else.
click_header_thrice :
    (col : Text) (f : Filters)
    → ((c : Text) (asc : Bool) → f.sort ≡ some (c, asc) → (c === col) ≡ false)
    → ((click_header col f).sort ≡ some (col, true))
      × ((click_header col (click_header col f)).sort ≡ some (col, false))
      × (click_header col (click_header col (click_header col f)) ≡ record f { sort = none })
unfolding click_header
click_header_thrice col f h =
    let once = next_sort-first col f.sort h in
    let twice = ap (next_sort col) once ∙ next_sort-again col true in
    let thrice = ap (next_sort col) twice ∙ next_sort-again col false in
    (once, twice, ap (λ s. record f { sort = s }) thrice)
