-- ===== src/Browse/Filter/Rows.antt =====
-- frontend/js/views/browse-filter.js: the rows that the filters leave (`applyFiltersToRows`). The columns,
-- the patterns of `RegExp`, the times of `Date` and the order of a sorted column are those of `Page`.
pub mod Shown
pub mod Kept
pub mod Samples
use ise_endpoint_portal.Prelude.{
  ℕ, ◌+◌, ◌-◌, ◌*◌, ◌/◌, ◌%◌, Bool, true, false, not, ◌||◌, ◌&&◌, List, [], ◌∷◌, ◌++◌, Option, none,
  some, if◌then◌else◌, map, any, all, filter, find?, ◌==◌, leb,
}
use ise_endpoint_portal.Js.Dict.{Dict, lookup}
use ise_endpoint_portal.Js.Text.{
  Text, codes, ◌===◌, includes, includes_text, truthy, or_empty, trim, to_lower_case, join,
}
use ise_endpoint_portal.Csv.Mac.{is_hex}
use ise_endpoint_portal.Browse.Texts.{normalize_mac}
use ise_endpoint_portal.Browse.Filter.{
  Filters, Input, filled_inputs, is_digit, date_time, midnight, last_minute,
}

-- what the filters read of an endpoint; a missing text is empty, a missing time is 0
pub record Row : Type 0 where
  pub id : Text
  pub mac : Text
  pub name : Text
  pub description : Text
  pub group_name : Text
  pub profiler_name : Text
  pub vendor : Text
  pub owner : Text
  pub lokation : Text
  pub endpoint_type : Text
  pub platform_type : Text
  pub hypervision : Text
  pub status : Text
  pub active_status : Text
  pub first_seen_at : ℕ
  pub roles : List Text

-- the session of an address
pub record Session : Type 0 where
  pub framed_ip : Text
  pub user_name : Text
  pub policy_set_name : Text
  pub authz_rule_name : Text
  pub use_case : Text
  pub nas_name : Text
  pub nas_device_type : Text
  pub dacl : Text
  pub vlan : Text
  pub cts_security_group : Text
  pub identity_group : Text
  pub auth_method : Text
  pub authz_profiles : List Text

pub record Column : Type 0 where
  pub key : Text
  pub field : Row → Text

-- What the filters take from outside: the page's columns and sessions, the stored set of marked
-- addresses, `RegExp` (a query against a text), `Date` (the seconds of a date and time, `none` if it
-- is invalid), and the sorting by a column.
pub record Page : Type 0 where
  pub columns : List Column
  pub sessions : Dict Session
  pub session_macs : Option (List Text)
  pub marked : List Text
  pub matches : (query text : Text) → Bool
  pub seconds : Text → Option ℕ
  pub sorted : (col : Text) → (asc : Bool) → List Row → List Row

-- `normalizeMac(r.mac || r.name || "")`
unfoldable pub row_mac : Row → Text
unfolding normalize_mac
row_mac r = normalize_mac (some (if truthy r.mac then r.mac else r.name))

-- the longest end of a text that is digits
abbrev pub digits_at_end : Text → Text
digits_at_end [] = []
digits_at_end (c ∷ s) = let rest = digits_at_end s in if all is_digit (c ∷ s) then c ∷ s else rest

-- `/(\d+)\s*$/`
unfoldable pub vlan_number : Text → Text
unfolding trim
vlan_number vlan = digits_at_end (trim vlan)

unfoldable pub profile_text : Text → Text → Text
unfolding includes to_lower_case
profile_text number p =
    if includes (to_lower_case p) (codes "vlan") && truthy number then p ++ b':' ∷ number else p

abbrev pub no_session : Session
no_session = record {
  framed_ip = [];
  user_name = [];
  policy_set_name = [];
  authz_rule_name = [];
  use_case = [];
  nas_name = [];
  nas_device_type = [];
  dacl = [];
  vlan = [];
  cts_security_group = [];
  identity_group = [];
  auth_method = [];
  authz_profiles = [];
}

-- a missing session has empty texts
unfoldable pub session_of : Page → Row → Session
unfolding lookup row_mac
session_of page r = elim (lookup (row_mac r) page.sessions) [ none ↦ no_session | some s ↦ s ]

unfoldable pub has_session : List Text → Row → Bool
unfolding includes_text row_mac
has_session macs r = includes_text macs (row_mac r)

abbrev pub auth_text : Page → Row → Text
auth_text page r = elim page.session_macs [
  | none ↦ []
  | some macs ↦ if has_session macs r then codes "autentificeret" else codes "inaktiv"
]

-- the texts that are searched
unfoldable pub searched : Page → Row → List Text
unfolding session_of vlan_number profile_text join has_session
searched page r =
    let s = session_of page r in
    r.mac
    ∷ r.name
    ∷ r.description
    ∷ r.group_name
    ∷ r.profiler_name
    ∷ r.vendor
    ∷ r.owner
    ∷ r.lokation
    ∷ r.endpoint_type
    ∷ r.platform_type
    ∷ s.framed_ip
    ∷ auth_text page r
    ∷ join (codes " ") (map (profile_text (vlan_number s.vlan)) s.authz_profiles)
    ∷ s.user_name
    ∷ s.policy_set_name
    ∷ s.authz_rule_name
    ∷ s.use_case
    ∷ s.nas_name
    ∷ s.nas_device_type
    ∷ s.dacl
    ∷ s.vlan
    ∷ s.cts_security_group
    ∷ s.identity_group
    ∷ s.auth_method
    ∷ []

unfoldable pub is_found : Page → Text → Row → Bool
unfolding searched includes to_lower_case
is_found page q r = any (λ v. includes (to_lower_case v) (to_lower_case q)) (searched page r)

-- `getColumnFilters`: an input of a column that is not shown is passed over
unfoldable pub column_filters : Page → List Input → List (Row → Bool)
unfolding trim ◌===◌
column_filters page [] = []
column_filters page ((col, v) ∷ inputs) =
    let rest = column_filters page inputs in
    let active : List (Row → Bool) = elim (find? (λ c. c.key === col) page.columns) [
      | none ↦ rest
      | some c ↦ (λ r. page.matches (trim v) (c.field r)) ∷ rest
    ] in
    if truthy (trim v) then active else rest

abbrev pub is_after : Page → Text → ℕ → Bool
is_after page from ts =
    if truthy from then elim (page.seconds from) [ none ↦ false | some s ↦ leb s ts ] else true

abbrev pub is_before : Page → Text → ℕ → Bool
is_before page to ts =
    if truthy to then elim (page.seconds to) [ none ↦ false | some s ↦ leb ts (s + 59) ] else true

abbrev pub hex_value : ℕ → ℕ
hex_value c = if is_digit c then c - b'0' else if leb b'a' c then c - b'a' + 10 else c - b'A' + 10

-- `parseInt(s, 16)` up to the colon, for a text without a sign and without `0x`; `none` is NaN
unfoldable pub parse_hex : Option ℕ → Text → Option ℕ
unfolding is_hex
parse_hex n [] = n
parse_hex n (c ∷ s) =
    let more = parse_hex (some (elim n [ none ↦ hex_value c | some k ↦ k * 16 + hex_value c ])) s in
    if is_hex c then more else n

-- a locally administered address: the second bit of its first byte is set
unfoldable pub is_private : Row → Bool
unfolding parse_hex row_mac
is_private r = elim (parse_hex none (row_mac r)) [ none ↦ false | some n ↦ (n / 2) % 2 == 1 ]

abbrev pub decommissioned : Text
decommissioned = codes "Decommissioned"

-- `if (c) rows = rows.filter(p)`
abbrev pub when : Bool → (Row → Bool) → List Row → List Row
when c p rows = if c then filter p rows else rows

unfoldable pub is_decommissioned : Row → Bool
unfolding ◌===◌
is_decommissioned r = r.status === decommissioned

abbrev pub from_of : Filters → Text
from_of f = date_time f.from_d f.from_t midnight

abbrev pub to_of : Filters → Text
to_of f = date_time f.to_d f.to_t last_minute

-- the filter by session, if the sessions are known
abbrev pub auth_step : Page → Filters → List Row → List Row
auth_step page f rows = elim page.session_macs [
  | none ↦ rows
  | some macs ↦
      filter
        (λ r.
          if f.auth_status === codes "auth" then has_session macs r else not (has_session macs r))
        rows
]

-- `applyFiltersToRows` up to the sorting; where no column is filtered, no test is left to fail
unfoldable pub filter_rows : Page → Filters → List Row → List Row
unfolding is_decommissioned is_found column_filters has_session date_time is_private row_mac ◌===◌
    includes_text
filter_rows page f rows =
    let portal = when f.portal_only (λ r. r.hypervision === codes "true") rows in
    let decomm =
      if f.decomm_only
      then filter is_decommissioned portal
      else when f.hide_decommissioned (λ r. not (is_decommissioned r)) portal in
    let active = when (truthy f.active_status) (λ r. r.active_status === f.active_status) decomm in
    let full_text = when (truthy f.full_text_q) (is_found page f.full_text_q) active in
    let tests = column_filters page f.inputs in
    let columns = filter (λ r. all (λ test. test r) tests) full_text in
    let auth = if f.auth_status === codes "all" then columns else auth_step page f columns in
    let first_seen =
      when (truthy (from_of f) || truthy (to_of f))
        (λ r. is_after page (from_of f) r.first_seen_at && is_before page (to_of f) r.first_seen_at)
        auth in
    let private = when f.mac_private is_private first_seen in
    when f.marked_only (λ r. includes_text page.marked (row_mac r)) private

-- `applyFiltersToRows`; a column that is not shown does not sort
unfoldable pub apply_filters_to_rows : Page → Filters → List Row → List Row
unfolding filter_rows ◌===◌
apply_filters_to_rows page f rows = elim f.sort [
  | none ↦ filter_rows page f rows
  | some s ↦
      if any (λ c. c.key === s.0) page.columns
      then page.sorted s.0 s.1 (filter_rows page f rows)
      else filter_rows page f rows
]
