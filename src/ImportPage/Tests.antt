-- ===== src/ImportPage/Tests.antt =====
-- A concrete import.
use ise_endpoint_portal.Prelude.{◌≡◌, ◌≤◌, refl, true, false, List, [], ◌∷◌, All, length}
use ise_endpoint_portal.Js.Text.{codes}
use ise_endpoint_portal.Csv.Import.{parse_csv}
use ise_endpoint_portal.ImportPage.{
  Group, import_items, initial, Event, text_set, previews, handle_all, handle, set_text,
  click_preview,
}
use ise_endpoint_portal.ImportPage.Sent.{is_canonical_mac, import_items-handle_all}

abbrev one_row : List Event
one_row = text_set (codes "aa-bb-cc-dd-ee-ff,lab") ∷ previews ∷ []

abbrev groups : List Group
groups = record { id = codes "g1"; name = codes "Lab" } ∷ []

one_row-enabled : (handle_all one_row initial).import_disabled ≡ false
unfolding handle_all handle set_text click_preview parse_csv
one_row-enabled = refl

import_items-handle_all_example :
    (1 ≤ length (import_items groups (codes "g0") (handle_all one_row initial).parsed))
    × All
        (λ e. is_canonical_mac e.mac ≡ true)
        (import_items groups (codes "g0") (handle_all one_row initial).parsed)
import_items-handle_all_example =
    import_items-handle_all one_row groups (codes "g0") one_row-enabled
