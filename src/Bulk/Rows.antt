-- ===== src/Bulk/Rows.antt =====
-- frontend/js/views/browse-bulk.js: deleting and decommissioning selected endpoints, and what that does to
-- the rows that the page holds. While an action runs, no other handler changes the rows.
pub mod Deleted
pub mod Hidden
use ise_endpoint_portal.Prelude.{
  ℕ, zero, suc, ◌+◌, Bool, true, false, not, List, [], ◌∷◌, Option, none, some, if◌then◌else◌, map,
  filter, length, ltb,
}
use ise_endpoint_portal.Js.Text.{Text, codes, ◌===◌, includes_text}
use ise_endpoint_portal.Browse.Filter.Rows.{Row, decommissioned}

-- `state.allRows` and `state.allRowsCache`
pub record Held : Type 0 where
  pub all_rows : List Row
  pub all_rows_cache : Option (List Row)

abbrev pub map_cache : (List Row → List Row) → Option (List Row) → Option (List Row)
map_cache g none = none
map_cache g (some rows) = some (g rows)

abbrev pub on_both : (List Row → List Row) → Held → Held
on_both g held = record {
  all_rows = g held.all_rows;
  all_rows_cache = map_cache g held.all_rows_cache;
}

unfoldable pub without_row : Text → List Row → List Row
unfolding ◌===◌
without_row id rows = filter (λ r. not (r.id === id)) rows

-- the rows, and the counters of the loop
pub record Deleting : Type 0 where
  pub held : Held
  pub ok : ℕ
  pub fail : ℕ

-- One round: the call of `api.deleteEndpoint` succeeds or throws.
unfoldable pub delete_one : Bool → Text → Deleting → Deleting
unfolding without_row
delete_one true id d = record {
  held = on_both (without_row id) d.held;
  ok = suc d.ok;
  fail = d.fail;
}
delete_one false id d = record d { fail = suc d.fail }

-- the loop; `succeeds` tells how the call for an endpoint ends
unfoldable pub delete_each : (succeeds : Text → Bool) → List Text → Deleting → Deleting
unfolding delete_one
delete_each succeeds [] d = d
delete_each succeeds (id ∷ ids) d = delete_each succeeds ids (delete_one (succeeds id) id d)

abbrev pub start : Held → Deleting
start held = record { held = held; ok = 0; fail = 0 }

-- the handler of the delete button
unfoldable pub bulk_delete : (succeeds : Text → Bool) → List Text → Held → Deleting
unfolding delete_each
bulk_delete succeeds ids held = delete_each succeeds ids (start held)

-- an element of the results of a bulk call
pub record Result : Type 0 where
  pub id : Text
  pub ok : Bool

-- what a bulk call brings, where it does not throw; a missing count is 0
pub record Reply : Type 0 where
  pub ok_count : ℕ
  pub results : List Result

abbrev pub is_ok : Result → Bool
is_ok r = r.ok

abbrev pub result_id : Result → Text
result_id r = r.id

abbrev pub ok_ids : Reply → List Text
ok_ids reply = map result_id (filter is_ok reply.results)

abbrev pub fail_count : Reply → ℕ
fail_count reply = length (filter (λ r. not r.ok) reply.results)

-- the colour of the message
pub data Class : Type 0 where
  success info error : Class

unfoldable pub result_class : (ok fail : ℕ) → Class
result_class ok fail = if ltb 0 fail then (if ltb 0 ok then info else error) else success

abbrev pub with_status : Text → List Text → Row → Row
with_status status ids r = if includes_text ids r.id then record r { status = status } else r

unfoldable pub set_status : Text → List Text → List Row → List Row
unfolding includes_text ◌===◌
set_status status ids rows = map (with_status status ids) rows

-- the handler after the call; no row is touched if none succeeded
unfoldable pub set_status_of : Text → Reply → Held → Held
unfolding set_status
set_status_of status reply held = elim (ok_ids reply) [
  | [] ↦ held
  | id ∷ ids ↦ on_both (set_status status (id ∷ ids)) held
]

-- what follows `api.bulkDecommission` and `api.bulkUndecommission`; a call that throws changes nothing
unfoldable pub bulk_decommission : Option Reply → Held → Held
unfolding set_status_of
bulk_decommission none held = held
bulk_decommission (some reply) held = set_status_of decommissioned reply held

unfoldable pub bulk_undecommission : Option Reply → Held → Held
unfolding set_status_of
bulk_undecommission none held = held
bulk_undecommission (some reply) held = set_status_of [] reply held
