-- ===== src/Browse/Filter/Rows/Samples.antt =====
-- Concrete rows of the list, a page and filters.
use ise_endpoint_portal.Prelude.{true, false, List, [], ◌∷◌, none, some}
use ise_endpoint_portal.Js.Text.{codes, includes}
use ise_endpoint_portal.Browse.Filter.{Filters}
use ise_endpoint_portal.Browse.Filter.Rows.{Row, Page}

abbrev pub lab_row : Row
lab_row = record {
  id = codes "1";
  mac = codes "02-00-00-00-00-01";
  name = [];
  description = codes "printer";
  group_name = codes "Lab";
  profiler_name = [];
  vendor = codes "Canon Inc";
  owner = [];
  lokation = [];
  endpoint_type = [];
  platform_type = [];
  hypervision = codes "true";
  status = [];
  active_status = [];
  first_seen_at = 1700000000;
  roles = codes "Legacy" ∷ [];
}

abbrev pub old_row : Row
old_row = record lab_row {
  id = codes "2";
  mac = codes "00:00:00:00:00:02";
  status = codes "Decommissioned";
}

abbrev pub swap : List Row → List Row
swap (a ∷ b ∷ rows) = b ∷ a ∷ rows
swap rows = rows

-- a page with one column and no session; sorting swaps the first two rows
abbrev pub shown_page : Page
shown_page = record {
  columns = record { key = codes "mac"; field = λ r. r.mac } ∷ [];
  sessions = [];
  session_macs = none;
  marked = [];
  matches = λ query text. includes text query;
  seconds = λ d. none;
  sorted = λ col asc rows. swap rows;
}

abbrev pub all_filters : Filters
all_filters = record {
  portal_only = true;
  decomm_only = false;
  active_status = [];
  sort = some (codes "mac", true);
  current_filters = [];
  inputs = (codes "mac", codes "00") ∷ [];
  auth_status = codes "all";
  col_vis = λ k. none;
  page_size = 50;
  from_d = [];
  from_t = [];
  to_d = [];
  to_t = [];
  full_text_q = codes "PRINT";
  hide_decommissioned = true;
  mac_private = true;
  marked_only = false;
}
