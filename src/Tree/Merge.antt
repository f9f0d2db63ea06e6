-- ===== src/Tree/Merge.antt =====
-- frontend/js/views/browse-tree.js: `mergeValues`, which makes one branch of two.
pub mod Disjoint
pub mod History
use ise_endpoint_portal.Prelude.{
  Bool, true, false, List, [], ◌∷◌, ◌++◌, if◌then◌else◌, any, Option, none, some,
}
use ise_endpoint_portal.Js.Dict.{Dict, lookup, put}
use ise_endpoint_portal.Js.Text.{Text, includes_text, split_on}
use ise_endpoint_portal.Tree.{merge_sep}

-- `mergeMembers`
abbrev pub merge_members : Text → List Text
merge_members key = split_on merge_sep key

-- `set.add(m)` for every member: a new element goes to the end
abbrev pub add_all : List Text → List Text → List Text
add_all set [] = set
add_all set (m ∷ ms) = add_all (if includes_text set m then set else set ++ m ∷ []) ms

-- The loop of `mergeValues`: the groups that share no value with the set, and the set with the
-- values of the others.
unfoldable pub fold_groups : List (List Text) → List Text → List (List Text) × List Text
unfolding includes_text
fold_groups [] union = ([], union)
fold_groups (g ∷ gs) union =
    let folded = fold_groups gs (add_all union g) in
    let (keep, out) = fold_groups gs union in
    if any (includes_text union) g then folded else (g ∷ keep, out)

-- the new groups of the parent
unfoldable pub merge_groups : List (List Text) → Text → Text → List (List Text)
unfolding fold_groups split_on
merge_groups groups a b =
    let (keep, union) = fold_groups groups (add_all [] (merge_members a ++ merge_members b)) in
    keep ++ union ∷ []

abbrev pub groups_or_none : Option (List (List Text)) → List (List Text)
groups_or_none none = []
groups_or_none (some gs) = gs

-- `mergeValues` on `state.treeMerges`
unfoldable pub merge_values : Dict (List (List Text)) → Text → Text → Text → Dict (List (List Text))
unfolding merge_groups lookup put
merge_values merges parent a b =
    put parent (merge_groups (groups_or_none (lookup parent merges)) a b) merges

-- the groups of a parent after merges of two branches each, from none
unfoldable pub merge_history : List (Text × Text) → List (List Text) → List (List Text)
unfolding merge_groups
merge_history [] groups = groups
merge_history ((a, b) ∷ rest) groups = merge_history rest (merge_groups groups a b)
