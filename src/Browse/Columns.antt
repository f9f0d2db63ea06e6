-- ===== src/Browse/Columns.antt =====
-- frontend/js/views/browse-utils.js: the order of the columns, the settings of the columns, and the
-- marked addresses. What localStorage holds under these keys was written by these functions.
pub mod Order
pub mod Marks
pub mod Prefs
use ise_endpoint_portal.Prelude.{
  Bool, true, false, not, List, [], ◌∷◌, ◌++◌, Option, none, some, if◌then◌else◌, filter,
  filter_map,
}
use ise_endpoint_portal.Js.Storage.{Entry, absent, value, read}
use ise_endpoint_portal.Js.Text.{Text, ◌===◌, includes_text}

module _ {A : Type 0} (key : A → Text) where
  -- `new Map(cols.map(c => [c.key, c])).get(k)`: the last column with this key
  unfoldable pub map_get : List A → Text → Option A
  map_get [] k = none
  map_get (c ∷ cols) k = elim (map_get cols k) [
    | some d ↦ some d
    | none ↦ if key c === k then some c else none
  ]

  -- the columns with a place in the order, and then the others
  abbrev pub in_order : List A → List Text → List A
  in_order cols order =
      filter_map (map_get cols) order ++ filter (λ c. not (includes_text order (key c))) cols

  -- `getOrderedColumns` on the columns and the order that is stored
  unfoldable pub get_ordered_columns : List A → Entry (List Text) → List A
  get_ordered_columns cols stored = elim (read stored) [
    | none ↦ cols
    | some [] ↦ cols
    | some (k ∷ ks) ↦ in_order cols (k ∷ ks)
  ]

-- `set.add(m)` on a set in the order of its insertions
abbrev pub set_add : List Text → Text → List Text
set_add set m = if includes_text set m then set else set ++ m ∷ []

abbrev pub set_add_all : List Text → List Text → List Text
set_add_all set [] = set
set_add_all set (m ∷ ms) = set_add_all (set_add set m) ms

-- `loadMarkedMacs`
unfoldable pub load_marked_macs : Entry (List Text) → List Text
load_marked_macs stored = elim (read stored) [ none ↦ [] | some ms ↦ set_add_all [] ms ]

-- `addMarkedMacs`: what is then stored
unfoldable pub add_marked_macs : List Text → Entry (List Text) → Entry (List Text)
unfolding load_marked_macs
add_marked_macs macs stored = value (set_add_all (load_marked_macs stored) macs)

-- `clearMarkedMacs`
abbrev pub clear_marked_macs : Entry (List Text) → Entry (List Text)
clear_marked_macs stored = absent

-- The three settings of the columns; which columns are visible and how wide they are is opaque.
module _ (V W : Type 0) where
  pub record ColumnSettings : Type 0 where
    pub order : Entry (List Text)
    pub vis : Entry V
    pub widths : Entry W

-- what `applyBackendColPrefs` does to one setting; `none` is a value that its tests refuse
abbrev pub fill : {A : Type 0} → Option A → Entry A → Entry A
fill none stored = stored
fill (some a) stored = elim (read stored) [ none ↦ value a | some b ↦ stored ]

-- `Array.isArray(order) && order.length`
abbrev pub usable_order : Option (List Text) → Option (List Text)
usable_order none = none
usable_order (some []) = none
usable_order (some (k ∷ ks)) = some (k ∷ ks)

module _ {V W : Type 0} where
  -- `applyBackendColPrefs`
  unfoldable pub apply_backend_col_prefs :
      Option (List Text) → Option V → Option W → ColumnSettings V W → ColumnSettings V W
  apply_backend_col_prefs order vis widths s = record {
    order = fill (usable_order order) s.order;
    vis = fill vis s.vis;
    widths = fill widths s.widths;
  }

  -- the payload that `_syncColPrefs` uploads; `none` if it has no key
  unfoldable pub sync_col_prefs :
      ColumnSettings V W → Option (Option (List Text) × Option V × Option W)
  sync_col_prefs s = elim (read s.order) [
    | some o ↦ some (some o, read s.vis, read s.widths)
    | none ↦ elim (read s.vis) [
      | some v ↦ some (none, some v, read s.widths)
      | none ↦ elim (read s.widths) [ some w ↦ some (none, none, some w) | none ↦ none ]
    ]
  ]
