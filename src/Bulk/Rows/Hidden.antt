-- ===== src/Bulk/Rows/Hidden.antt =====
-- Decommissioned endpoints in the list.
use ise_endpoint_portal.Prelude.{
  ◌⊎◌, ◌≡◌, refl, sym, ap, ◌∙◌, inl, inr, Bool, true, false, ◌&&◌, List, [], ◌∷◌, if◌then◌else◌,
  map, filter, Bool-cases, arith, All,
}
use ise_endpoint_portal.Js.Text.{Text, ◌===◌, includes_text}
use ise_endpoint_portal.Browse.Filter.{Filters}
use ise_endpoint_portal.Browse.Filter.Rows.{
  Row, Page, is_decommissioned, decommissioned, filter_rows,
}
use ise_endpoint_portal.Browse.Filter.Rows.Shown.{is_shown, filter_rows-is_shown}
use ise_endpoint_portal.Bulk.Rows.{with_status, set_status}
use ise_endpoint_portal.Bulk.Rows.Deleted.{without_rows}

and_absorbs : (a b : Bool) → (a && false && b) ≡ false
and_absorbs true b = refl
and_absorbs false b = refl

-- a decommissioned row, while such rows are hidden
is_shown-decommissioned :
    (page : Page) (f : Filters) (r : Row)
    → f.hide_decommissioned ≡ true
    → f.decomm_only ≡ false
    → is_shown page f (record r { status = decommissioned }) ≡ false
unfolding is_shown is_decommissioned ◌===◌
is_shown-decommissioned page f r h d = rw (h, d) (ground arith)

filter-set_status :
    (page : Page) (f : Filters) (ids : List Text) (rows : List Row)
    → f.hide_decommissioned ≡ true
    → f.decomm_only ≡ false
    → filter (is_shown page f) (set_status decommissioned ids rows)
      ≡ filter (is_shown page f) (without_rows ids rows)
unfolding set_status without_rows
filter-set_status page f ids [] h d = refl
filter-set_status page f ids (r ∷ rows) h d = elim (Bool-cases (includes_text ids r.id)) [
  | inl e ↦ rw (e, is_shown-decommissioned page f r h d) (filter-set_status page f ids rows h d)
  | inr e ↦
      rw e (
        ap (λ xs. if is_shown page f r then r ∷ xs else xs) (filter-set_status page f ids rows h d))
]

-- While decommissioned endpoints are hidden, the list that is shown (before it is sorted) is the same after
-- some of its endpoints were decommissioned as if they had been deleted.
pub filter_rows-set_status :
    (page : Page) (f : Filters) (ids : List Text) (rows : List Row)
    → f.hide_decommissioned ≡ true
    → f.decomm_only ≡ false
    → filter_rows page f (set_status decommissioned ids rows)
      ≡ filter_rows page f (without_rows ids rows)
filter_rows-set_status page f ids rows h d =
    filter_rows-is_shown page f (set_status decommissioned ids rows)
    ∙ filter-set_status page f ids rows h d
    ∙ sym (filter_rows-is_shown page f (without_rows ids rows))

with_status-in :
    (a : Text) (ids : List Text) (r : Row)
    → includes_text ids r.id ≡ true
    → with_status a ids r ≡ record r { status = a }
with_status-in a ids r e = ap (λ b. if b then record r { status = a } else r) e

with_status-out :
    (a : Text) (ids : List Text) (r : Row)
    → includes_text ids r.id ≡ false
    → with_status a ids r ≡ r
with_status-out a ids r e = ap (λ b. if b then record r { status = a } else r) e

with_status-twice :
    (a b : Text) (ids : List Text) (r : Row)
    → with_status a ids (with_status b ids r) ≡ with_status a ids r
with_status-twice a b ids r = elim (Bool-cases (includes_text ids r.id)) [
  | inl e ↦
      ap (with_status a ids) (with_status-in b ids r e)
      ∙ with_status-in a ids (record r { status = b }) e
      ∙ sym (with_status-in a ids r e)
  | inr e ↦ ap (with_status a ids) (with_status-out b ids r e)
]

set_status-twice :
    (a b : Text) (ids : List Text) (rows : List Row)
    → set_status a ids (set_status b ids rows) ≡ set_status a ids rows
unfolding set_status
set_status-twice a b ids [] = refl
set_status-twice a b ids (r ∷ rows) =
    ap (λ x. x ∷ map (with_status a ids) (map (with_status b ids) rows))
      (with_status-twice a b ids r)
    ∙ ap (◌∷◌ (with_status a ids r)) (set_status-twice a b ids rows)

same_status :
    (a : Text) (ids : List Text) (r : Row)
    → (includes_text ids r.id ≡ false) ⊎ (r.status ≡ a)
    → with_status a ids r ≡ r
same_status a ids r (inl e) = with_status-out a ids r e
same_status a ids r (inr e) = elim (Bool-cases (includes_text ids r.id)) [
  | inr k ↦ with_status-out a ids r k
  | inl k ↦ with_status-in a ids r k ∙ ap (λ s. record r { status = s }) (sym e)
]

set_status-same :
    (a : Text) (ids : List Text) (rows : List Row)
    → All (λ r. (includes_text ids r.id ≡ false) ⊎ (r.status ≡ a)) rows
    → set_status a ids rows ≡ rows
unfolding set_status
set_status-same a ids [] h = refl
set_status-same a ids (r ∷ rows) (h, t) =
    ap (λ x. x ∷ map (with_status a ids) rows) (same_status a ids r h)
    ∙ ap (◌∷◌ r) (set_status-same a ids rows t)

-- Endpoints that were in service are, after they were decommissioned and reactivated, as they were.
pub set_status-round_trip :
    (ids : List Text) (rows : List Row)
    → All (λ r. (includes_text ids r.id ≡ false) ⊎ (r.status ≡ [])) rows
    → set_status [] ids (set_status decommissioned ids rows) ≡ rows
set_status-round_trip ids rows h =
    set_status-twice [] decommissioned ids rows ∙ set_status-same [] ids rows h
