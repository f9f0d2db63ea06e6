-- ===== src/Browse/Filter/Snapshots.antt =====
-- A snapshot that is applied to a page is the snapshot of that page.
use ise_endpoint_portal.Prelude.{
  Option, ℕ, ◌<◌, ◌≡◌, refl, sym, ap, ◌∙◌, inl, inr, Bool, true, false, List, [], ◌∷◌, none, some,
  if◌then◌else◌, map, arith, Bool-cases,
}
use ise_endpoint_portal.Js.Text.{Text, ◌===◌, includes_text, truthy, trim, has_unit}
use ise_endpoint_portal.Js.Text.Laws.{===_refl, ===_comm, trim_idem}
use ise_endpoint_portal.Js.Text.Count.{AreDistinct}
use ise_endpoint_portal.Browse.Filter.{
  Input, Filters, Snapshot, filled_inputs, snapshot_filters, set_input, set_inputs, clear_inputs,
  apply_filter_snapshot, midnight, last_minute, page_size_or,
}
use ise_endpoint_portal.Browse.Columns.Prefs.{or_else}
use ise_endpoint_portal.Browse.Filter.Times.{date_time-pieces, midnight-IsTime, last_minute-IsTime}

-- the columns of inputs, each once
abbrev pub columns_of : List Input → List Text
columns_of = map (λ i. i.0)

-- the values as a snapshot keeps them
abbrev trimmed : List Input → List Input
trimmed = map (λ i. (i.0, trim i.1))

set_inputs-other :
    (c v : Text) (cols inputs : List Input)
    → includes_text (columns_of cols) c ≡ false
    → set_inputs cols ((c, v) ∷ inputs) ≡ (c, v) ∷ set_inputs cols inputs
unfolding set_inputs set_input includes_text
set_inputs-other c v [] inputs h = refl
set_inputs-other c v ((d, w) ∷ cols) inputs h =
    rw (===_comm c d, other) (set_inputs-other c v cols (set_input d w inputs) (ground arith))
  where
    other : (d === c) ≡ false
    other = ground arith

filled_inputs-columns :
    (c : Text) (inputs : List Input)
    → includes_text (columns_of inputs) c ≡ false
    → includes_text (columns_of (filled_inputs inputs)) c ≡ false
unfolding filled_inputs includes_text
filled_inputs-columns c [] h = refl
filled_inputs-columns c ((d, w) ∷ inputs) h = elim (Bool-cases (truthy (trim w))) [
  | inl e ↦ rw e (ground (arith, filled_inputs-columns c inputs))
  | inr e ↦ rw e (ground (arith, filled_inputs-columns c inputs))
]

not-truthy : (s : Text) → truthy s ≡ false → s ≡ []
not-truthy [] h = refl
not-truthy (c ∷ s) h = ground arith

set_inputs-head :
    (c v w : Text) (cols inputs : List Input)
    → set_inputs ((c, w) ∷ cols) ((c, v) ∷ inputs) ≡ set_inputs cols ((c, w) ∷ inputs)
unfolding set_inputs set_input
set_inputs-head c v w cols inputs = rw (===_refl c)

-- Inputs that are cleared and set from a snapshot hold the trimmed values.
set_inputs-filled :
    (inputs : List Input)
    → AreDistinct (columns_of inputs)
    → set_inputs (filled_inputs inputs) (clear_inputs inputs) ≡ trimmed inputs
unfolding filled_inputs set_inputs set_input
set_inputs-filled [] h = refl
set_inputs-filled ((c, v) ∷ inputs) (fresh, h) = elim (Bool-cases (truthy (trim v))) [
  | inl e ↦ rw e (
      set_inputs-head c [] (trim v) (filled_inputs inputs) (clear_inputs inputs)
      ∙ set_inputs-other c (trim v) (filled_inputs inputs) (clear_inputs inputs)
          (filled_inputs-columns c inputs fresh)
      ∙ ap (◌∷◌ (c, trim v)) (set_inputs-filled inputs h))
  | inr e ↦
      rw (e, not-truthy (trim v) e)
        (set_inputs-other c [] (filled_inputs inputs) (clear_inputs inputs)
            (filled_inputs-columns c inputs fresh)
          ∙ ap (◌∷◌ (c, [])) (set_inputs-filled inputs h))
]

clear_inputs-columns_of :
    (inputs : List Input) → clear_inputs inputs ≡ map (λ c. (c, [])) (columns_of inputs)
clear_inputs-columns_of [] = refl
clear_inputs-columns_of ((c, v) ∷ inputs) = ap (◌∷◌ (c, [])) (clear_inputs-columns_of inputs)

clear_inputs-same :
    (a b : List Input) → columns_of a ≡ columns_of b → clear_inputs a ≡ clear_inputs b
clear_inputs-same a b h =
    clear_inputs-columns_of a ∙ ap (map (λ c. (c, []))) h ∙ sym (clear_inputs-columns_of b)

filled_inputs-trimmed :
    (inputs : List Input) → filled_inputs (trimmed inputs) ≡ filled_inputs inputs
unfolding filled_inputs
filled_inputs-trimmed [] = refl
filled_inputs-trimmed ((c, v) ∷ inputs) = rw (trim_idem v, filled_inputs-trimmed inputs)

-- The inputs of another page with the same columns.
filled_inputs-restored :
    (a b : List Input)
    → AreDistinct (columns_of a)
    → columns_of b ≡ columns_of a
    → filled_inputs (set_inputs (filled_inputs a) (clear_inputs b)) ≡ filled_inputs a
filled_inputs-restored a b d same =
    ap (λ x. filled_inputs (set_inputs (filled_inputs a) x)) (clear_inputs-same b a same)
    ∙ ap filled_inputs (set_inputs-filled a d)
    ∙ filled_inputs-trimmed a

-- The filters `f` can be put on a page that has the state `page`: the page has the same inputs, a
-- column has one input, a date holds no `T`, something is selected, and the two chips that a
-- snapshot does not reset are not set.
pub record IsRestorable (f page : Filters) : Type 0 where
  pub same_columns : columns_of page.inputs ≡ columns_of f.inputs
  pub distinct : AreDistinct (columns_of f.inputs)
  pub from_date : has_unit b'T' f.from_d ≡ false
  pub to_date : has_unit b'T' f.to_d ≡ false
  pub selected : truthy f.auth_status ≡ true
  pub sized : 0 < f.page_size
  pub no_decomm : page.decomm_only ≡ false
  pub no_status : page.active_status ≡ []

-- a snapshot without the visibility of the columns
abbrev pub without_vis : Snapshot → Snapshot
without_vis s = record s { col_vis = none }

bool-kept : (b : Bool) → (if b then true else false) ≡ b
bool-kept true = refl
bool-kept false = refl

text-kept : (s : Text) → (if truthy s then s else []) ≡ s
text-kept [] = refl
text-kept (c ∷ s) = refl

page_size-kept : (old n : ℕ) → 0 < n → page_size_or old (some n) ≡ n
page_size-kept old n h = ground arith

vis-merged :
    (b : Bool) (view own : Option Bool)
    → (elim view [ none ↦ own | some v ↦ if b then some v else own ])
      ≡ (if b then or_else view own else own)
vis-merged true none own = refl
vis-merged true (some v) own = refl
vis-merged false none own = refl
vis-merged false (some v) own = refl

-- A view that is saved, put on a page that it can be restored on, and saved again is the same view,
-- except for the visibility of the columns. Where that is taken over, each column of the page has
-- the visibility of the view, or keeps its own if the view has none for it, and nothing else changes.
pub snapshot-apply_filter_snapshot :
    (columns : List Text) (skip : Bool) (f page : Filters)
    → IsRestorable f page
    → (without_vis (snapshot_filters (apply_filter_snapshot columns skip (snapshot_filters f) page))
        ≡ without_vis (snapshot_filters f))
      × ((k : Text)
          → (apply_filter_snapshot columns false (snapshot_filters f) page).col_vis k ≡ (
              if includes_text columns k
              then or_else (f.col_vis k) (page.col_vis k)
              else page.col_vis k))
unfolding snapshot_filters apply_filter_snapshot
snapshot-apply_filter_snapshot columns skip f page h = (
  rw (
    filled_inputs-restored f.inputs page.inputs h.distinct h.same_columns,
    h.no_decomm,
    h.no_status,
    h.selected,
    bool-kept f.decomm_only,
    text-kept f.active_status,
    page_size-kept page.page_size f.page_size h.sized,
    date_time-pieces f.from_d f.from_t midnight h.from_date midnight-IsTime,
    date_time-pieces f.to_d f.to_t last_minute h.to_date last_minute-IsTime,
  ),
  λ k. vis-merged (includes_text columns k) (f.col_vis k) (page.col_vis k),
)
