-- ===== src/Bulk/Tests.antt =====
-- Concrete rows, and what is done to them.
use ise_endpoint_portal.Prelude.{
  ◌+◌, ◌≡◌, refl, Bool, true, false, List, [], ◌∷◌, none, some, length,
}
use ise_endpoint_portal.Js.Storage.{absent}
use ise_endpoint_portal.Js.Text.{Text, codes, ◌===◌, trim, truthy}
use ise_endpoint_portal.Js.Dict.{put}
use ise_endpoint_portal.Browse.Filter.Rows.Samples.{shown_page, all_filters, lab_row, old_row}
use ise_endpoint_portal.Browse.Filter.Rows.{decommissioned, filter_rows}
use ise_endpoint_portal.Bulk.Rows.{Held, map_cache, bulk_delete, set_status}
use ise_endpoint_portal.Bulk.Rows.Deleted.{without_rows, succeeded, bulk_delete-IsDeleted}
use ise_endpoint_portal.Bulk.Rows.Hidden.{filter_rows-set_status}
use ise_endpoint_portal.Bulk.Edit.{Fields, Drawn, no_badge, registret_by_input, apply_fields}
use ise_endpoint_portal.Bulk.Radius.{
  Window, read_from, read_radius_attrs, load_click, save_click, select_click,
}
use ise_endpoint_portal.Bulk.Radius.Templates.{load_click-save_click}

abbrev selected : List Text
selected = codes "1" ∷ codes "2" ∷ []

-- the second call fails
abbrev first_only : Text → Bool
first_only id = id === codes "1"

abbrev held : Held
held = record { all_rows = lab_row ∷ old_row ∷ []; all_rows_cache = some (old_row ∷ lab_row ∷ []) }

bulk_delete-IsDeleted_example :
    ((bulk_delete first_only selected held).held.all_rows
      ≡ without_rows (succeeded first_only selected) held.all_rows)
    × ((bulk_delete first_only selected held).held.all_rows_cache
        ≡ map_cache (without_rows (succeeded first_only selected)) held.all_rows_cache)
    × ((bulk_delete first_only selected held).ok ≡ length (succeeded first_only selected))
    × ((bulk_delete first_only selected held).ok + (bulk_delete first_only selected held).fail
        ≡ length selected)
bulk_delete-IsDeleted_example = bulk_delete-IsDeleted first_only selected held

filter_rows-set_status_example :
    filter_rows shown_page all_filters
      (set_status decommissioned (codes "1" ∷ []) (lab_row ∷ old_row ∷ []))
    ≡ filter_rows shown_page all_filters (without_rows (codes "1" ∷ []) (lab_row ∷ old_row ∷ []))
filter_rows-set_status_example =
    filter_rows-set_status shown_page all_filters (codes "1" ∷ []) (lab_row ∷ old_row ∷ []) refl
      refl

abbrev catalog : List Text
catalog = codes "Lab" ∷ codes "Guest" ∷ []

abbrev drawn : Text → Drawn
drawn id = record {
  id = id;
  group = codes "g1";
  assign_static = some false;
  be_static_group = none;
  description = [];
  registret_by = [];
  guest_expery_date = [];
  endpoint_type = [];
  owner = [];
  lokation = [];
  authz_vlan = [];
  authz_acl = [];
  platform_type = [];
  guest_reg = none;
  psk_mode = none;
  psk_key_cell = none;
  be_psk_key = none;
  roles_cell = some [];
  be_active_status = none;
  badge = no_badge;
  dirty = false;
}

abbrev new_owner : Fields
new_owner = record {
  group = none;
  static_group = none;
  description = none;
  endpoint_type = none;
  owner = some (codes "ann");
  lokation = none;
  authz_vlan = none;
  authz_acl = none;
  platform_type = none;
  guest_reg = none;
  psk_mode = none;
  psk_key = none;
  roles = true;
  active_status = none;
}

abbrev table : List Drawn
table = drawn (codes "1") ∷ drawn (codes "2") ∷ drawn (codes "3") ∷ []

abbrev new_description : Fields
new_description = record new_owner { description = some (codes "printer") }

-- With the column of the registrant in front, the description is put there.
registret_by-new_description :
    (apply_fields registret_by_input catalog [] new_description (drawn (codes "1"))).registret_by
    ≡ codes "printer"
unfolding apply_fields
registret_by-new_description = refl

abbrev window : Window
window = record {
  rows = (codes " Service-Type ", codes "Framed") ∷ (codes "Empty", []) ∷ [];
  stored = absent;
  selected = [];
}

window-read : read_radius_attrs window.rows ≡ (codes "Service-Type", codes "Framed") ∷ []
unfolding read_from put trim
window-read = refl

named : truthy (trim (codes "Office ")) ≡ true
unfolding trim
named = refl

load_click-save_click_example :
    read_radius_attrs
      (load_click
        (record (select_click
          (codes "t1")
          (save_click (codes "t1") (some (codes "Office ")) window)) { rows = [] })).rows
    ≡ read_radius_attrs window.rows
load_click-save_click_example =
    load_click-save_click (codes "t1") (codes "Office ") window
      (codes "Service-Type", codes "Framed") [] [] window-read named refl tt
