-- ===== src/Tree/Layout.antt =====
-- frontend/js/views/browse-tree.js: the layout of the tree that is kept for a user, `initTreeState`,
-- `currentLayout` and `persistLayoutIfChanged`. Objects are dictionaries.
pub mod Limits
pub mod RoundTrip
pub mod Saving
mod Tests
use ise_endpoint_portal.Prelude.{
  ℕ, Bool, true, false, ◌||◌, List, [], ◌∷◌, Option, none, some, if◌then◌else◌, map, filter, length,
  leb,
}
use ise_endpoint_portal.Js.Dict.{Dict, put}
use ise_endpoint_portal.Js.Text.{Text, codes, includes_text, ◌===◌}
use ise_endpoint_portal.Routes.{inherited_names}
use ise_endpoint_portal.Tree.{dims}

-- What is read of the stored layout, which may be anything: `none` is a value of another type.
pub record Seed : Type 0 where
  pub group_by : Option (List Text)
  pub branch_dim : Dict (Option Text)
  pub merges : Dict (Option (List (Option (List Text))))
  pub hidden : Dict (Option (List Text))

-- `treeGroupBy`, `treeBranchDim`, `treeMerges` and `treeHidden`, and what `currentLayout` returns
pub record Layout : Type 0 where
  pub group_by : List Text
  pub branch_dim : Dict Text
  pub merges : Dict (List (List Text))
  pub hidden : Dict (List Text)

-- `DEFAULT_GROUPBY`
abbrev pub default_group_by : List Text
default_group_by = codes "group_name" ∷ codes "profiler_name" ∷ []

-- whether `DIM_BY_KEY[k]` is truthy
unfoldable pub is_dim : Text → Bool
unfolding includes_text
is_dim k = includes_text dims k || includes_text inherited_names k

-- `for (const [p, v] of Object.entries(source)) …; target[p] = …`, where `f` brings what is stored
abbrev pub collect : {A B : Type 0} → (A → Option B) → Dict B → Dict A → Dict B
collect f target [] = target
collect f target ((p, a) ∷ source) = elim (f a) [
  | none ↦ collect f target source
  | some b ↦ collect f (put p b target) source
]

abbrev pub is_long : List Text → Bool
is_long g = leb 2 (length g)

-- `groups.filter((g) => Array.isArray(g) && g.length >= 2)`
abbrev pub long_arrays : List (Option (List Text)) → List (List Text)
long_arrays [] = []
long_arrays (none ∷ gs) = long_arrays gs
long_arrays (some g ∷ gs) = let rest = long_arrays gs in if is_long g then g ∷ rest else rest

abbrev pub arrays_of : Option (List (Option (List Text))) → Option (List (List Text))
arrays_of none = none
arrays_of (some gs) = some (long_arrays gs)

abbrev pub as_it_is : {A : Type 0} → Option A → Option A
as_it_is a = a

abbrev pub group_by_or : List Text → Option (List Text) → List Text
group_by_or d none = d
group_by_or d (some ks) = ks

abbrev pub dims_of : Option (List Text) → Option (List Text) → Option (List Text)
dims_of before none = before
dims_of before (some ks) = some (filter is_dim ks)

-- `initTreeState`; `before` is `treeGroupBy`, if it is set
unfoldable pub init_tree_state : Option (List Text) → Option Seed → Layout
unfolding put is_dim
init_tree_state before none = record {
  group_by = group_by_or default_group_by before;
  branch_dim = [];
  merges = [];
  hidden = [];
}
init_tree_state before (some seed) = record {
  group_by = group_by_or default_group_by (dims_of before seed.group_by);
  branch_dim = collect as_it_is [] seed.branch_dim;
  merges = collect arrays_of [] seed.merges;
  hidden = collect as_it_is [] seed.hidden;
}

-- the elements, if there are any
abbrev pub some_if_any : {A : Type 0} → List A → Option (List A)
some_if_any [] = none
some_if_any (x ∷ xs) = some (x ∷ xs)

abbrev pub kept_groups : List (List Text) → Option (List (List Text))
kept_groups groups = some_if_any (filter is_long groups)

-- `currentLayout`
unfoldable pub current_layout : Layout → Layout
unfolding put
current_layout state = record {
  group_by = state.group_by;
  branch_dim = state.branch_dim;
  merges = collect kept_groups [] state.merges;
  hidden = collect some_if_any [] state.hidden;
}

-- what `initTreeState` reads of a layout that arrives
abbrev pub as_seed : Layout → Seed
as_seed l = record {
  group_by = some l.group_by;
  branch_dim = map (λ e. (e.0, some e.1)) l.branch_dim;
  merges = map (λ e. (e.0, some (map (λ g. some g) e.1))) l.merges;
  hidden = map (λ e. (e.0, some e.1)) l.hidden;
}

-- The saving of the layout, for one page: the signature of the last one, which the page's state keeps, and
-- the layout that the timer of the module will save.
-- `sign` is `JSON.stringify`.
pub record Saver : Type 0 where
  pub signature : Option Text
  pub pending : Option Layout

module _ (sign : Layout → Text) where
  -- `persistLayoutIfChanged`; `can_save` is whether there is a `saveLayout`
  unfoldable pub persist_layout_if_changed : Bool → Layout → Saver → Saver
  unfolding current_layout ◌===◌
  persist_layout_if_changed can_save state saver =
      let layout = current_layout state in
      if can_save
      then elim saver.signature [
        | none ↦ record { signature = some (sign layout); pending = saver.pending }
        | some sig ↦
            if sign layout === sig
            then saver
            else record { signature = some (sign layout); pending = some layout }
      ]
      else saver
