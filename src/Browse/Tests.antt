-- ===== src/Browse/Tests.antt =====
-- Concrete addresses, texts, groups and columns.
use mathlib.Core.Path.{subst}
use ise_endpoint_portal.Prelude.{
  ◌&&◌, ap, ℕ, ◌≡◌, refl, Bool, true, false, List, [], ◌∷◌, some, map,
}
use ise_endpoint_portal.Js.Storage.{Entry, absent, unreadable, value, read}
use ise_endpoint_portal.Js.Text.{Text, codes, ◌===◌, includes_text, has_unit}
use ise_endpoint_portal.Browse.Texts.{
  esc_unit, normalize_mac, esc, group_label, at, fmt_relative_age, fmt_ago, months, minutes,
}
use ise_endpoint_portal.Browse.Texts.Laws.{Reads, is_markup, esc-Reads, IsPart}
use ise_endpoint_portal.Browse.Columns.{
  get_ordered_columns, map_get, ColumnSettings, usable_order, apply_backend_col_prefs,
  sync_col_prefs,
}
use ise_endpoint_portal.Js.Text.Count.{count, IsDistinct, cons-IsDistinct, nil-IsDistinct}
use ise_endpoint_portal.Browse.Columns.Order.{count-get_ordered_columns}
use ise_endpoint_portal.Browse.Columns.Prefs.{or_else, payload, sync-apply_backend_col_prefs}

normalize_mac-typed : normalize_mac (some (codes " aa-bb-cc-00-11-2f ")) ≡ codes "AA:BB:CC:00:11:2F"
unfolding normalize_mac
normalize_mac-typed = refl

esc-tag : esc (some (codes "<b a='1'>")) ≡ codes "&lt;b a=&#39;1&#39;&gt;"
unfolding esc esc_unit
esc-tag = refl

esc-Reads_example :
    Reads (esc (some (codes "<&'"))) (codes "<&'")
    × ((d : ℕ) → (is_markup d && has_unit d (esc (some (codes "<&'")))) ≡ false)
esc-Reads_example = esc-Reads (codes "<&'")

group_label-nested :
    group_label (codes "Endpoint Identity Groups:Profiled:Apple") ≡ codes "Profiled / Apple"
unfolding group_label
group_label-nested = refl

Profiled-IsPart : IsPart (codes "Profiled")
unfolding has_unit
Profiled-IsPart = (refl, refl)

Apple-IsPart : IsPart (codes "Apple")
unfolding has_unit
Apple-IsPart = (refl, refl)

fmt_relative_age-month : fmt_relative_age 2_600_000_000 (at 0) ≡ months 1
unfolding fmt_relative_age
fmt_relative_age-month = refl

fmt_ago-minutes : fmt_ago 1_000_500 (some 900) ≡ some (minutes 1)
unfolding fmt_ago
fmt_ago-minutes = refl

-- columns that are nothing but their keys
abbrev three_columns : List Text
three_columns = codes "mac" ∷ codes "owner" ∷ codes "nas" ∷ []

-- an order that names a column that is gone, and leaves out one that is new
abbrev old_order : List Text
old_order = codes "nas" ∷ codes "gone" ∷ codes "mac" ∷ []

get_ordered_columns-old :
    get_ordered_columns (λ c. c) three_columns (value old_order)
    ≡ codes "nas" ∷ codes "mac" ∷ codes "owner" ∷ []
unfolding get_ordered_columns map_get includes_text ◌===◌
get_ordered_columns-old = refl

three_columns-IsDistinct : IsDistinct three_columns
unfolding includes_text ◌===◌
three_columns-IsDistinct = cons-IsDistinct (codes "mac") (codes "owner" ∷ codes "nas" ∷ []) refl (
    cons-IsDistinct (codes "owner") (codes "nas" ∷ []) refl
      (cons-IsDistinct (codes "nas") [] refl nil-IsDistinct))

old_order-IsDistinct : (order : List Text) → value old_order ≡ value order → IsDistinct order
unfolding includes_text ◌===◌
old_order-IsDistinct order e = subst IsDistinct (ap listed e) (
    cons-IsDistinct (codes "nas") (codes "gone" ∷ codes "mac" ∷ []) refl (
      cons-IsDistinct (codes "gone") (codes "mac" ∷ []) refl
        (cons-IsDistinct (codes "mac") [] refl nil-IsDistinct)))
  where
    listed : Entry (List Text) → List Text
    listed (value a) = a
    listed absent = []
    listed unreadable = []

count-get_ordered_columns_example :
    count
      (codes "owner")
      (map (λ c. c) (get_ordered_columns (λ c. c) three_columns (value old_order)))
    ≡ count (codes "owner") (map (λ c. c) three_columns)
count-get_ordered_columns_example =
    count-get_ordered_columns (λ c. c) three_columns (value old_order) (codes "owner")
      three_columns-IsDistinct old_order-IsDistinct

abbrev new_device : ColumnSettings Bool ℕ
new_device = record { order = absent; vis = value true; widths = unreadable }

sync-apply_backend_col_prefs_example :
    sync_col_prefs (apply_backend_col_prefs (some old_order) (some false) (some 7) new_device)
    ≡ payload
        (or_else (read new_device.order) (usable_order (some old_order)))
        (or_else (read new_device.vis) (some false))
        (or_else (read new_device.widths) (some 7))
sync-apply_backend_col_prefs_example =
    sync-apply_backend_col_prefs (some old_order) (some false) (some 7) new_device
