-- ===== src/Browse/Filter/Tests.antt =====
-- A view that is saved and put back, and filters that are cleared.
use ise_endpoint_portal.Prelude.{
  ◌≡◌, refl, Bool, true, false, ◌&&◌, List, [], ◌∷◌, none, some, if◌then◌else◌, arith, filter,
  length,
}
use ise_endpoint_portal.Browse.Filter.Rows.{
  Row, is_private, is_decommissioned, is_found, column_filters, filter_rows, apply_filters_to_rows,
}
use ise_endpoint_portal.Browse.Filter.Rows.Shown.{is_shown}
use ise_endpoint_portal.Browse.Filter.Rows.Kept.{apply_filters_to_rows-is_shown}
use ise_endpoint_portal.Browse.Filter.Rows.Samples.{lab_row, old_row, swap, shown_page, all_filters}
use ise_endpoint_portal.Js.Text.{Text, codes, ◌===◌, includes_text, trim, has_unit}
use ise_endpoint_portal.Browse.Filter.{
  Filters, snapshot_filters, apply_filter_snapshot, empty_snapshot, date_time, midnight,
}
use ise_endpoint_portal.Browse.Filter.Snapshots.{
  IsRestorable, without_vis, snapshot-apply_filter_snapshot,
}
use ise_endpoint_portal.Browse.Columns.Prefs.{or_else}

abbrev fresh : Filters
fresh = record {
  portal_only = false;
  decomm_only = false;
  active_status = [];
  sort = none;
  current_filters = [];
  inputs = (codes "mac", []) ∷ (codes "owner", codes "x") ∷ [];
  auth_status = codes "all";
  col_vis = λ k. none;
  page_size = 100;
  from_d = [];
  from_t = [];
  to_d = [];
  to_t = [];
  full_text_q = [];
  hide_decommissioned = true;
  mac_private = false;
  marked_only = false;
}

abbrev chosen : Filters
chosen = record fresh {
  portal_only = true;
  decomm_only = true;
  active_status = codes "Aktiv";
  inputs = (codes "mac", codes " AA:") ∷ (codes "owner", []) ∷ [];
  auth_status = codes "auth";
  col_vis = λ k. if k === codes "mac" then some false else none;
  page_size = 50;
  from_d = codes "2026-01-31";
  from_t = codes "7:75";
}

date_time-clamped :
    date_time (codes "2026-01-31") (codes " 7:75") midnight ≡ codes "2026-01-31T07:59"
unfolding date_time trim
date_time-clamped = refl

chosen-IsRestorable : IsRestorable chosen fresh
unfolding has_unit includes_text ◌===◌
chosen-IsRestorable = record {
  same_columns = refl;
  distinct = (refl, (refl, tt));
  from_date = refl;
  to_date = refl;
  selected = refl;
  sized = omega arith;
  no_decomm = refl;
  no_status = refl;
}

snapshot-apply_filter_snapshot_example :
    (without_vis (
        snapshot_filters
          (apply_filter_snapshot (codes "mac" ∷ []) false (snapshot_filters chosen) fresh))
      ≡ without_vis (snapshot_filters chosen))
    × ((k : Text)
        → (apply_filter_snapshot (codes "mac" ∷ []) false (snapshot_filters chosen) fresh).col_vis k
          ≡ (if includes_text (codes "mac" ∷ []) k
              then or_else (chosen.col_vis k) (fresh.col_vis k)
              else fresh.col_vis k))
snapshot-apply_filter_snapshot_example =
    snapshot-apply_filter_snapshot (codes "mac" ∷ []) false chosen fresh chosen-IsRestorable

-- The view that resets the filters leaves the chip for decommissioned endpoints, and the status.
apply_filter_snapshot_keeps_chips :
    ((apply_filter_snapshot [] false empty_snapshot chosen).decomm_only ≡ true)
    × ((apply_filter_snapshot [] false empty_snapshot chosen).active_status ≡ codes "Aktiv")
unfolding apply_filter_snapshot
apply_filter_snapshot_keeps_chips = (refl, refl)

lab_row-shown : filter_rows shown_page all_filters (old_row ∷ lab_row ∷ []) ≡ lab_row ∷ []
unfolding filter_rows is_decommissioned is_found column_filters is_private
lab_row-shown = refl

swap-same :
    (q : Row → Bool) (rows : List Row) → length (filter q (swap rows)) ≡ length (filter q rows)
swap-same q [] = refl
swap-same q (a ∷ []) = refl
swap-same q (a ∷ b ∷ rows) = by_tests (q a) (q b)
  where
    by_tests :
        (x y : Bool)
        → length (
            if y
            then b ∷ (if x then a ∷ filter q rows else filter q rows)
            else if x
            then a ∷ filter q rows
            else filter q rows)
          ≡ length (
              if x
              then a ∷ (if y then b ∷ filter q rows else filter q rows)
              else if y
              then b ∷ filter q rows
              else filter q rows)
    by_tests true true = refl
    by_tests true false = refl
    by_tests false true = refl
    by_tests false false = refl

apply_filters_to_rows-is_shown_example :
    length (
      filter is_private
        (apply_filters_to_rows shown_page all_filters (old_row ∷ lab_row ∷ lab_row ∷ [])))
    ≡ length (
        filter
          (λ r. is_shown shown_page all_filters r && is_private r)
          (old_row ∷ lab_row ∷ lab_row ∷ []))
apply_filters_to_rows-is_shown_example =
    apply_filters_to_rows-is_shown shown_page all_filters (old_row ∷ lab_row ∷ lab_row ∷ [])
      is_private (λ col asc q rows. swap-same q rows)
