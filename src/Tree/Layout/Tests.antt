-- ===== src/Tree/Layout/Tests.antt =====
-- A concrete layout.
use ise_endpoint_portal.Prelude.{◌≡◌, ◌⊎◌, refl, true, [], ◌∷◌, none, some, All, length}
use ise_endpoint_portal.Js.Dict.{keys}
use ise_endpoint_portal.Js.Text.{Text, codes, join, includes_text, ◌===◌}
use ise_endpoint_portal.Js.Text.Count.{AreDistinct}
use ise_endpoint_portal.Tree.Layout.{Layout, is_dim, init_tree_state, current_layout, as_seed}
use ise_endpoint_portal.Tree.Layout.Limits.{safe_tree_layout, IsSmall}
use ise_endpoint_portal.Tree.Layout.RoundTrip.{current_layout-init_tree_state}
use ise_endpoint_portal.Tree.Layout.Saving.{
  renders, fires, fresh, handle, handle_all, pending-renders,
}

abbrev two_dims : Layout
two_dims = record {
  group_by = codes "vendor" ∷ codes "status" ∷ [];
  branch_dim = (codes "//0:HP", codes "owner") ∷ [];
  merges =
      (codes "//0:HP", []) ∷ ([], (codes "HP" ∷ codes "Dell" ∷ []) ∷ (codes "x" ∷ []) ∷ []) ∷ [];
  hidden = ([], []) ∷ [];
}

two_dims-dims : All (λ k. is_dim k ≡ true) two_dims.group_by
unfolding is_dim includes_text ◌===◌
two_dims-dims = (refl, (refl, tt))

two_dims-branches : AreDistinct (keys two_dims.branch_dim)
unfolding includes_text
two_dims-branches = (refl, tt)

two_dims-merges : AreDistinct (keys two_dims.merges)
unfolding includes_text ◌===◌
two_dims-merges = (refl, (refl, tt))

two_dims-hidden : AreDistinct (keys two_dims.hidden)
unfolding includes_text
two_dims-hidden = (refl, tt)

two_dims-IsSmall : IsSmall length (current_layout two_dims)
unfolding current_layout
two_dims-IsSmall = record {
  group_by = (refl, (refl, (refl, tt)));
  branch_dim = (refl, (refl, tt));
  merges = (refl, (refl, tt));
  groups = ((refl, (((refl, (refl, (refl, tt))), refl), tt)), tt);
  hidden = (refl, tt);
  values = tt;
}

current_layout-init_tree_state_example :
    current_layout (
      init_tree_state none (
        some
          (as_seed (safe_tree_layout length (safe_tree_layout length (current_layout two_dims))))))
    ≡ current_layout two_dims
current_layout-init_tree_state_example =
    current_layout-init_tree_state length none two_dims two_dims-IsSmall two_dims-dims
      two_dims-branches two_dims-merges two_dims-hidden

abbrev sign : Layout → Text
sign l = join (codes ",") l.group_by

pending-renders_example :
    ((handle sign
        (renders two_dims)
        (handle_all sign (renders two_dims ∷ fires ∷ []) fresh)).pending
      ≡ none)
    ⊎ ((l : Layout) × ((handle sign
            (renders two_dims)
            (handle_all sign (renders two_dims ∷ fires ∷ []) fresh)).pending
          ≡ some l)
        × (sign l ≡ sign (current_layout two_dims)))
pending-renders_example = pending-renders sign (renders two_dims ∷ fires ∷ []) two_dims
