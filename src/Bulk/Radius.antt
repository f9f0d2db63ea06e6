-- ===== src/Bulk/Radius.antt =====
-- frontend/js/views/browse-bulk.js: the RADIUS attributes of a simulation, and the templates of them that
-- localStorage holds. An object's keys are taken in the order of their insertion.
pub mod Templates
use ise_endpoint_portal.Prelude.{
  Bool, true, false, not, ◌&&◌, List, [], ◌∷◌, ◌++◌, Option, none, some, if◌then◌else◌, filter,
  find?, any,
}
use ise_endpoint_portal.Js.Dict.{Dict, put}
use ise_endpoint_portal.Js.Storage.{Entry, value, read}
use ise_endpoint_portal.Js.Text.{Text, ◌===◌, truthy, trim}

pub record Template : Type 0 where
  pub id : Text
  pub name : Text
  pub attrs : Dict Text

-- the rows of keys and values, the stored templates, and the one that is selected
pub record Window : Type 0 where
  pub rows : List (Text × Text)
  pub stored : Entry (List Template)
  pub selected : Text

abbrev pub list_or_nil : Option (List Template) → List Template
list_or_nil none = []
list_or_nil (some tpls) = tpls

-- `loadTpls`
abbrev pub load_tpls : Entry (List Template) → List Template
load_tpls e = list_or_nil (read e)

-- `readBsimRadiusAttrs`
unfoldable pub read_from : Dict Text → List (Text × Text) → Dict Text
unfolding put trim
read_from m [] = m
read_from m ((k, v) ∷ rows) =
    read_from (if truthy (trim k) && truthy (trim v) then put (trim k) (trim v) m else m) rows

abbrev pub read_radius_attrs : List (Text × Text) → Dict Text
read_radius_attrs rows = read_from [] rows

-- `renderBsimTplSelect`: a template that is gone is no longer selected
unfoldable pub render_select : Window → Window
unfolding ◌===◌
render_select w = record w {
  selected = if any (λ t. t.id === w.selected) (load_tpls w.stored) then w.selected else [];
}

-- the load button
unfoldable pub load_click : Window → Window
unfolding ◌===◌
load_click w =
    let rows =
      elim (find? (λ t. t.id === w.selected) (load_tpls w.stored)) as (λ t. List (Text × Text)) [
        | none ↦ w.rows
        | some t ↦ t.attrs
      ] in
    if truthy w.selected then record w { rows = rows } else w

-- the save button: the id is a time, the name is the answer to a prompt
unfoldable pub save_click : (id : Text) → Option Text → Window → Window
unfolding read_from trim render_select
save_click id none w = w
save_click id (some name) w = elim (read_radius_attrs w.rows) [
  | [] ↦ w
  | a ∷ attrs ↦
      if truthy (trim name)
      then render_select (record w {
        stored =
            value
              (load_tpls w.stored ++ record { id = id; name = trim name; attrs = a ∷ attrs } ∷ []);
      })
      else w
]

-- the delete button
unfoldable pub delete_click : Window → Window
unfolding render_select ◌===◌
delete_click w =
    if truthy w.selected
    then render_select
        (record w { stored = value (filter (λ t. not (t.id === w.selected)) (load_tpls w.stored)) })
    else w

-- the user picks one of the templates
unfoldable pub select_click : Text → Window → Window
unfolding render_select
select_click id w = render_select (record w { selected = id })
