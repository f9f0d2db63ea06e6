-- ===== src/Register/Mine.antt =====
-- frontend/js/views/register.js: the list of the user's own endpoints, which is loaded when it is first opened.
-- A click ends before the next one.
use ise_endpoint_portal.Prelude.{
  ℕ, suc, ◌≡◌, refl, ◌∙◌, inl, inr, Bool, true, false, not, List, [], ◌∷◌, if◌then◌else◌, length,
  Bool-cases,
}
use ise_endpoint_portal.Js.Text.{Text}

-- what `renderMineList` reads of an endpoint
pub record Endpoint : Type 0 where
  pub mac : Text
  pub group_name : Text
  pub description : Text
  pub roles : List Text

-- what `api.listAllEndpointDetails` brings
pub data Fetched : Type 0 where
  threw : Text → Fetched
  fetched : List Endpoint → Fetched

pub data Label : Type 0 where
  mine_label : Label
  mine_count : ℕ → Label

-- `shown` are the cards, or the message of an error
pub record Mine : Type 0 where
  pub hidden : Bool
  pub loaded : Bool
  pub rows : List Endpoint
  pub shown : Fetched
  pub label : Label
  pub calls : ℕ

abbrev pub initial : Mine
initial = record {
  hidden = true;
  loaded = false;
  rows = [];
  shown = fetched [];
  label = mine_label;
  calls = 0;
}

abbrev render_mine_list : List Endpoint → Mine → Mine
render_mine_list rows m = record m {
  hidden = false;
  shown = fetched rows;
  label = mine_count (length rows);
}

abbrev load : Fetched → Mine → Mine
load (threw e) m = record m {
  hidden = false;
  shown = threw e;
  label = mine_label;
  calls = suc m.calls;
}
load (fetched rows) m =
    render_mine_list rows (record m { loaded = true; rows = rows; calls = suc m.calls })

-- a click on the button, with what a call would bring
unfoldable pub toggle : Fetched → Mine → Mine
toggle reply m =
    if not m.hidden
    then record m { hidden = true; label = mine_label }
    else if m.loaded
    then render_mine_list m.rows m
    else load reply m

unfoldable pub toggle_all : List Fetched → Mine → Mine
unfolding toggle
toggle_all [] m = m
toggle_all (r ∷ rs) m = toggle_all rs (toggle r m)

toggle-loaded :
    (reply : Fetched) (m : Mine)
    → m.loaded ≡ true
    → ((toggle reply m).loaded ≡ true)
      × ((toggle reply m).calls ≡ m.calls)
      × ((toggle reply m).rows ≡ m.rows)
unfolding toggle
toggle-loaded reply m h = elim (Bool-cases m.hidden) [
  | inl e ↦ rw (e, h) (refl, refl, refl)
  | inr e ↦ rw e (h, refl, refl)
]

-- Once the list is loaded, no click makes a call or changes its rows.
toggle_all-loaded :
    (replies : List Fetched) (m : Mine)
    → m.loaded ≡ true
    → ((toggle_all replies m).calls ≡ m.calls) × ((toggle_all replies m).rows ≡ m.rows)
unfolding toggle_all
toggle_all-loaded [] m h = (refl, refl)
toggle_all-loaded (r ∷ rs) m h =
    let (l, c, w) = toggle-loaded r m h in
    let (cs, ws) = toggle_all-loaded rs (toggle r m) l in (cs ∙ c, ws ∙ w)
