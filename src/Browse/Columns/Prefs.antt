-- ===== src/Browse/Columns/Prefs.antt =====
-- The settings of the columns that the browser and the backend keep.
use ise_endpoint_portal.Prelude.{◌≡◌, refl, List, Option, none, some}
use ise_endpoint_portal.Js.Storage.{Entry, absent, unreadable, value, read}
use ise_endpoint_portal.Js.Text.{Text}
use ise_endpoint_portal.Browse.Columns.{
  ColumnSettings, fill, usable_order, apply_backend_col_prefs, sync_col_prefs,
}

-- the first of two settings that is there
abbrev pub or_else : {A : Type 0} → Option A → Option A → Option A
or_else none b = b
or_else (some a) b = some a

-- Three settings as one payload, `none` if there is none of them.
abbrev pub payload :
    {V W : Type 0}
    → Option (List Text)
    → Option V
    → Option W
    → Option (Option (List Text) × Option V × Option W)
payload none none none = none
payload none none (some w) = some (none, none, some w)
payload none (some v) w = some (none, some v, w)
payload (some o) v w = some (some o, v, w)

read-fill : {A : Type 0} (b : Option A) (e : Entry A) → read (fill b e) ≡ or_else (read e) b
read-fill none absent = refl
read-fill none unreadable = refl
read-fill none (value a) = refl
read-fill (some b) absent = refl
read-fill (some b) unreadable = refl
read-fill (some b) (value a) = refl

module _ {V W : Type 0} where
  sync_col_prefs-payload :
      (s : ColumnSettings V W)
      → sync_col_prefs s ≡ payload (read s.order) (read s.vis) (read s.widths)
  unfolding sync_col_prefs
  sync_col_prefs-payload s = by_parts (read s.order) (read s.vis) (read s.widths)
    where
      by_parts :
          (o : Option (List Text)) (v : Option V) (w : Option W)
          → elim o [
            | some o ↦ some (some o, v, w)
            | none ↦ elim v [
              | some v ↦ some (none, some v, w)
              | none ↦ elim w [ some w ↦ some (none, none, some w) | none ↦ none ]
            ]
          ]
            ≡ payload o v w
      by_parts (some o) v w = refl
      by_parts none (some v) w = refl
      by_parts none none (some w) = refl
      by_parts none none none = refl

  -- After the settings of the backend are applied, what is uploaded is, setting by setting, the
  -- browser's own if it has one that can be read, and else the backend's, where an empty order
  -- counts as none.
  pub sync-apply_backend_col_prefs :
      (order : Option (List Text)) (vis : Option V) (widths : Option W) (s : ColumnSettings V W)
      → sync_col_prefs (apply_backend_col_prefs order vis widths s)
        ≡ payload
            (or_else (read s.order) (usable_order order))
            (or_else (read s.vis) vis)
            (or_else (read s.widths) widths)
  unfolding apply_backend_col_prefs
  sync-apply_backend_col_prefs order vis widths s = rw (
    sync_col_prefs-payload,
    read-fill (usable_order order) s.order,
    read-fill vis s.vis,
    read-fill widths s.widths,
  )
