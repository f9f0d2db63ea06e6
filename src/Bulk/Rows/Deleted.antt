-- ===== src/Bulk/Rows/Deleted.antt =====
-- The rows that a deletion leaves.
use ise_endpoint_portal.Prelude.{
  ◌+◌, ◌≡◌, refl, sym, ap, ◌∙◌, Bool, true, false, not, ◌||◌, ◌&&◌, List, [], ◌∷◌, Option, none,
  some, filter, length, arith,
}
use ise_endpoint_portal.Js.Text.{Text, ◌===◌, includes_text}
use ise_endpoint_portal.Js.Text.Laws.{===_comm}
use ise_endpoint_portal.Browse.Filter.Rows.{Row}
use ise_endpoint_portal.Browse.Filter.Rows.Shown.{filter-filter, filter-same, filter-all}
use ise_endpoint_portal.Bulk.Rows.{
  Held, map_cache, without_row, Deleting, delete_one, delete_each, start, bulk_delete,
}

-- the rows whose id is none of these
unfoldable pub without_rows : List Text → List Row → List Row
without_rows ids rows = filter (λ r. not (includes_text ids r.id)) rows

without_rows-nil : (rows : List Row) → without_rows [] rows ≡ rows
unfolding without_rows includes_text
without_rows-nil rows = filter-all (λ r. true) (λ r. refl) rows

without_rows-cons :
    (id : Text) (ids : List Text) (rows : List Row)
    → without_rows ids (without_row id rows) ≡ without_rows (id ∷ ids) rows
unfolding without_rows without_row includes_text
without_rows-cons id ids rows =
    filter-filter (λ r. not (r.id === id)) (λ r. not (includes_text ids r.id)) rows
    ∙ filter-same _ _
        (λ r. rw (===_comm r.id id) (de_morgan (id === r.id) (includes_text ids r.id))) rows
  where
    de_morgan : (a b : Bool) → (not a && not b) ≡ not (a || b)
    de_morgan true b = refl
    de_morgan false b = refl

-- the calls that succeed
abbrev pub succeeded : (Text → Bool) → List Text → List Text
succeeded succeeds ids = filter succeeds ids

map_cache-without_rows :
    (id : Text) (ids : List Text) (cache : Option (List Row))
    → map_cache (without_rows ids) (map_cache (without_row id) cache)
      ≡ map_cache (without_rows (id ∷ ids)) cache
map_cache-without_rows id ids none = refl
map_cache-without_rows id ids (some rows) = ap some (without_rows-cons id ids rows)

map_cache-nil : (cache : Option (List Row)) → map_cache (without_rows []) cache ≡ cache
map_cache-nil none = refl
map_cache-nil (some rows) = ap some (without_rows-nil rows)

-- what is left of the rows, and what is counted
pub record IsDeleted (succeeds : Text → Bool) (ids : List Text) (before after : Deleting)
    : Type 0 where
  pub rows : after.held.all_rows ≡ without_rows (succeeded succeeds ids) before.held.all_rows
  pub cache :
      after.held.all_rows_cache
      ≡ map_cache (without_rows (succeeded succeeds ids)) before.held.all_rows_cache
  pub ok : after.ok ≡ before.ok + length (succeeded succeeds ids)
  pub all : after.ok + after.fail ≡ (before.ok + before.fail) + length ids

delete_each-IsDeleted :
    (succeeds : Text → Bool) (ids : List Text) (d : Deleting)
    → IsDeleted succeeds ids d (delete_each succeeds ids d)
unfolding delete_each
delete_each-IsDeleted succeeds [] d = record {
  rows = sym (without_rows-nil d.held.all_rows);
  cache = sym (map_cache-nil d.held.all_rows_cache);
  ok = omega arith;
  all = omega arith;
}
delete_each-IsDeleted succeeds (id ∷ ids) d =
    by_call (succeeds id) refl (delete_each-IsDeleted succeeds ids (delete_one (succeeds id) id d))
  where
    by_call :
        (b : Bool)
        → succeeds id ≡ b
        → IsDeleted succeeds ids (delete_one b id d) (delete_each succeeds ids (delete_one b id d))
        → IsDeleted succeeds (id ∷ ids) d (delete_each succeeds ids (delete_one b id d))
    by_call true e h = record {
      rows = rw e (h.rows ∙ without_rows-cons id (succeeded succeeds ids) d.held.all_rows);
      cache =
          rw e (h.cache ∙ map_cache-without_rows id (succeeded succeeds ids) d.held.all_rows_cache);
      ok = rw e (omega (arith, h.ok));
      all = omega (arith, h.all);
    }
    by_call false e h = record {
      rows = rw e h.rows;
      cache = rw e h.cache;
      ok = rw e h.ok;
      all = omega (arith, h.all);
    }

-- Deleting the selected endpoints takes out of the list, and of the rows that were loaded for the filters,
-- exactly those whose call succeeded, in one pass as in many; the message counts them, and it counts each
-- endpoint once, as deleted or as failed.
pub bulk_delete-IsDeleted :
    (succeeds : Text → Bool) (ids : List Text) (held : Held)
    → ((bulk_delete succeeds ids held).held.all_rows
        ≡ without_rows (succeeded succeeds ids) held.all_rows)
      × ((bulk_delete succeeds ids held).held.all_rows_cache
          ≡ map_cache (without_rows (succeeded succeeds ids)) held.all_rows_cache)
      × ((bulk_delete succeeds ids held).ok ≡ length (succeeded succeeds ids))
      × ((bulk_delete succeeds ids held).ok + (bulk_delete succeeds ids held).fail ≡ length ids)
unfolding bulk_delete
bulk_delete-IsDeleted succeeds ids held =
    let h = delete_each-IsDeleted succeeds ids (start held) in
    (h.rows, h.cache, omega (arith, h.ok), omega (arith, h.all))
