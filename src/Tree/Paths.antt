-- ===== src/Tree/Paths.antt =====
-- frontend/js/views/browse-tree.js: the paths of branches, `//depth:value` for each level.
pub mod Parts
use ise_endpoint_portal.Prelude.{
  ℕ, Bool, true, false, ◌&&◌, List, [], ◌∷◌, ◌++◌, Option, none, some, if◌then◌else◌, ◌==◌,
  get_elem?,
}
use ise_endpoint_portal.Js.Dict.{Dict, lookup}
use ise_endpoint_portal.Js.Text.{Text, codes, truthy, join}
use ise_endpoint_portal.Tree.{merge_sep}
use ise_endpoint_portal.Tree.Merge.{merge_members, add_all}

abbrev pub starts_with_slashes : Text → Bool
starts_with_slashes [] = false
starts_with_slashes (c ∷ []) = false
starts_with_slashes (c ∷ d ∷ s) = c == b'/' && d == b'/'

abbrev pub after_slashes : Text → Option (Text × Text)
after_slashes [] = none
after_slashes (c ∷ []) = none
after_slashes (c ∷ d ∷ s) = if c == b'/' && d == b'/' then some ([], s) else none

abbrev pub in_front : ℕ → Option (Text × Text) → Option (Text × Text) → Option (Text × Text)
in_front c none here = here
in_front c (some (p, q)) here = some (c ∷ p, q)

-- what stands before and behind `s.lastIndexOf("//")`
unfoldable pub split_last : Text → Option (Text × Text)
split_last [] = none
split_last (c ∷ s) = in_front c (split_last s) (after_slashes (c ∷ s))

-- `parentOf`
abbrev pub front_or_empty : Option (Text × Text) → Text
front_or_empty none = []
front_or_empty (some (p, q)) = p

unfoldable pub parent_of : Text → Text
unfolding split_last
parent_of path = front_or_empty (split_last path)

-- `path.slice(path.lastIndexOf("//") + 2)`; without the slashes that is `path.slice(1)`
abbrev pub segment_of : Text → Option (Text × Text) → Text
segment_of [] none = []
segment_of (c ∷ s) none = s
segment_of path (some (p, q)) = q

-- what stands up to the first colon, and behind it; a text without one is what stands behind
unfoldable pub split_colon : Text → Option (Text × Text)
split_colon [] = none
split_colon (c ∷ s) =
    let rest = in_front c (split_colon s) none in if c == b':' then some (c ∷ [], s) else rest

abbrev pub back_or : Text → Option (Text × Text) → Text
back_or s none = s
back_or s (some (p, q)) = q

-- `valueOfPath`
unfoldable pub value_of_path : Text → Text
unfolding split_last split_colon
value_of_path path = let seg = segment_of path (split_last path) in back_or seg (split_colon seg)

-- The path of a branch in `renderNodes`; `depth` is the text of the level.
abbrev pub node_path : Text → Text → Text → Text
node_path path depth k = path ++ (codes "//" ++ (depth ++ (codes ":" ++ k)))

-- `mergedNodePath`; `sort` is the order of `localeCompare`
unfoldable pub merged_node_path : (List Text → List Text) → Text → Text → Text → Text
unfolding split_last split_colon join
merged_node_path sort any_member_path a b =
    let seg = segment_of any_member_path (split_last any_member_path) in
    let members = sort (add_all [] (merge_members a ++ merge_members b)) in
    front_or_empty (split_last any_member_path)
    ++ (codes "//" ++ (front_or_empty (split_colon seg) ++ join (merge_sep ∷ []) members))

-- the element of a list at an index
abbrev pub dim_at : List Text → ℕ → Option Text
dim_at group_by depth = elim (get_elem? group_by depth) [
  | none ↦ none
  | some d ↦ if truthy d then some d else none
]

-- `effectiveDim`; the empty text stands for the rows themselves
unfoldable pub effective_dim : Text → ℕ → List Text → Dict Text → Option Text
unfolding lookup
effective_dim path depth group_by branch_dim = elim (lookup path branch_dim) [
  | none ↦ dim_at group_by depth
  | some override ↦ if truthy override then some override else none
]
