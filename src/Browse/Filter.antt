-- ===== src/Browse/Filter.antt =====
-- frontend/js/views/browse-filter.js: the filters of the list, and the snapshot of them that is
-- stored and saved as a view. The inputs of the page are fields of the state. What the browser
-- keeps beside it (`saveColVis`, `savePageSize`) and how the page is redrawn are left out.
pub mod Times
pub mod Snapshots
pub mod Mode
pub mod Rows
mod Tests
use ise_endpoint_portal.Prelude.{
  ℕ, ◌+◌, ◌-◌, ◌*◌, ◌/◌, ◌%◌, Bool, true, false, not, ◌||◌, ◌&&◌, List, [], ◌∷◌, ◌++◌, Option, none,
  some, if◌then◌else◌, map, any, get_elem?, ◌==◌, leb, ltb,
}
use ise_endpoint_portal.Js.Text.{
  Text, codes, ◌===◌, includes_text, truthy, or_empty, trim, split_on,
}

abbrev pub is_digit : ℕ → Bool
is_digit c = leb b'0' c && leb c b'9'

abbrev pub min : ℕ → ℕ → ℕ
min a b = if leb a b then a else b

-- `String(n).padStart(2, "0")` below 100
abbrev pub pad : ℕ → Text
pad n = (b'0' + n / 10) ∷ (b'0' + n % 10) ∷ []

abbrev pub clock : ℕ → ℕ → Text
clock h m = pad (min 23 h) ++ b':' ∷ pad (min 59 m)

abbrev pub two_digits : ℕ → ℕ → ℕ
two_digits a b = (a - b'0') * 10 + (b - b'0')

-- the time of `_fsDateTimeVal`: hours and minutes as typed, each at most the last one, or the default
abbrev pub time_or : Text → Text → Text
time_or d (a ∷ s ∷ m ∷ n ∷ []) =
    if is_digit a && s == b':' && is_digit m && is_digit n
    then clock (a - b'0') (two_digits m n)
    else d
time_or d (a ∷ b ∷ s ∷ m ∷ n ∷ []) =
    if is_digit a && is_digit b && s == b':' && is_digit m && is_digit n
    then clock (two_digits a b) (two_digits m n)
    else d
time_or d _ = d

-- `_fsDateTimeVal`
unfoldable pub date_time : Text → Text → Text → Text
unfolding trim
date_time [] time d = []
date_time (c ∷ date) time d = (c ∷ date) ++ b'T' ∷ time_or d (trim time)

abbrev pub midnight : Text
midnight = codes "00:00"

abbrev pub last_minute : Text
last_minute = codes "23:59"

-- an input of the row of filters: its column and its value
abbrev pub Input : Type 0
Input = Text × Text

pub record Filters : Type 0 where
  pub portal_only : Bool
  pub decomm_only : Bool
  pub active_status : Text
  pub sort : Option (Text × Bool)
  pub current_filters : List Text
  pub inputs : List Input
  pub auth_status : Text
  pub col_vis : Text → Option Bool
  pub page_size : ℕ
  pub from_d : Text
  pub from_t : Text
  pub to_d : Text
  pub to_t : Text
  pub full_text_q : Text
  pub hide_decommissioned : Bool
  pub mac_private : Bool
  pub marked_only : Bool

-- A saved query. A missing text is empty.
pub record Snapshot : Type 0 where
  pub portal_only : Bool
  pub decomm_only : Bool
  pub active_status : Text
  pub cols : List Input
  pub auth_status : Text
  pub col_vis : Option (Text → Option Bool)
  pub page_size : Option ℕ
  pub first_seen_from : Text
  pub first_seen_to : Text

-- the inputs that are not blank
unfoldable pub filled_inputs : List Input → List Input
filled_inputs [] = []
filled_inputs ((col, v) ∷ inputs) =
    let rest = filled_inputs inputs in if truthy (trim v) then (col, trim v) ∷ rest else rest

-- `snapshotFilters`
unfoldable pub snapshot_filters : Filters → Snapshot
unfolding filled_inputs date_time
snapshot_filters s = record {
  portal_only = s.portal_only;
  decomm_only = s.decomm_only;
  active_status = s.active_status;
  cols = filled_inputs s.inputs;
  auth_status = s.auth_status;
  col_vis = some s.col_vis;
  page_size = some s.page_size;
  first_seen_from = date_time s.from_d s.from_t midnight;
  first_seen_to = date_time s.to_d s.to_t last_minute;
}

-- `querySelector(…)` for a column, and its new value
unfoldable pub set_input : Text → Text → List Input → List Input
set_input col v [] = []
set_input col v ((c, old) ∷ inputs) =
    let rest = set_input col v inputs in if c === col then (c, v) ∷ inputs else (c, old) ∷ rest

unfoldable pub set_inputs : List Input → List Input → List Input
set_inputs [] inputs = inputs
set_inputs ((col, v) ∷ cols) inputs = set_inputs cols (set_input col v inputs)

abbrev pub clear_inputs : List Input → List Input
clear_inputs = map (λ i. (i.0, []))

-- the visibility of a column after that of a snapshot, if it is to be taken over
abbrev pub merge_vis :
    List Text → Bool → Option (Text → Option Bool) → (Text → Option Bool) → Text → Option Bool
merge_vis columns skip none old k = old k
merge_vis columns skip (some vis) old k = elim (vis k) [
  | none ↦ old k
  | some b ↦ if not skip && includes_text columns k then some b else old k
]

abbrev pub page_size_or : ℕ → Option ℕ → ℕ
page_size_or old none = old
page_size_or old (some n) = if ltb 0 n then n else old

-- `(v || "").split("T")[i] || ""`
abbrev pub piece : ℕ → Text → Text
piece i v = or_empty (get_elem? (split_on b'T' v) i)

-- `applyFilterSnapshot` on a page with these columns
unfoldable pub apply_filter_snapshot : List Text → Bool → Snapshot → Filters → Filters
unfolding set_inputs split_on
apply_filter_snapshot columns skip_col_vis s f = record {
  portal_only = s.portal_only;
  decomm_only = if s.decomm_only then true else f.decomm_only;
  active_status = if truthy s.active_status then s.active_status else f.active_status;
  sort = none;
  current_filters = [];
  inputs = set_inputs s.cols (clear_inputs f.inputs);
  auth_status = if truthy s.auth_status then s.auth_status else codes "all";
  col_vis = merge_vis columns skip_col_vis s.col_vis f.col_vis;
  page_size = page_size_or f.page_size s.page_size;
  from_d = piece 0 s.first_seen_from;
  from_t = piece 1 s.first_seen_from;
  to_d = piece 0 s.first_seen_to;
  to_t = piece 1 s.first_seen_to;
  full_text_q = f.full_text_q;
  hide_decommissioned = f.hide_decommissioned;
  mac_private = f.mac_private;
  marked_only = f.marked_only;
}

-- `needsFilterMode`
unfoldable pub needs_filter_mode : Filters → Bool
unfolding trim ◌===◌
needs_filter_mode f =
    f.portal_only
    || any (λ i. truthy (trim i.1)) f.inputs
    || not (f.auth_status === codes "all")
    || elim f.sort [ none ↦ false | some s ↦ true ]
    || truthy f.full_text_q
    || (truthy f.from_d || truthy f.to_d)
    || f.mac_private
    || f.marked_only
    || f.decomm_only
    || truthy f.active_status

-- `{ portalOnly: false, cols: [], authStatus: "all" }`
abbrev pub empty_snapshot : Snapshot
empty_snapshot = record {
  portal_only = false;
  decomm_only = false;
  active_status = [];
  cols = [];
  auth_status = codes "all";
  col_vis = none;
  page_size = none;
  first_seen_from = [];
  first_seen_to = [];
}

-- the button that clears all filters
unfoldable pub clear_all : List Text → Filters → Filters
unfolding apply_filter_snapshot
clear_all columns f = record (apply_filter_snapshot columns false empty_snapshot f) {
  full_text_q = [];
  hide_decommissioned = true;
  decomm_only = false;
  active_status = [];
  from_d = [];
  from_t = [];
  to_d = [];
  to_t = [];
}

-- a click on the header of a column: ascending, descending, unsorted
abbrev pub next_sort : Text → Option (Text × Bool) → Option (Text × Bool)
next_sort col none = some (col, true)
next_sort col (some (c, asc)) =
    if c === col then (if asc then some (c, false) else none) else some (col, true)

unfoldable pub click_header : Text → Filters → Filters
unfolding ◌===◌
click_header col f = record f { sort = next_sort col f.sort }
