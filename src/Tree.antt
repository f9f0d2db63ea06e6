-- ===== src/Tree.antt =====
-- frontend/js/views/browse-tree.js: the rows of the list as a tree, grouped by a stack of
-- dimensions. This file has the rows and their values, and the buckets of one level. A `Map` is a
-- dictionary in the order of its insertions.
pub mod Buckets
pub mod Merge
pub mod Layout
pub mod Paths
pub mod Totals
pub mod Groups
pub mod Taken
pub mod Shown
mod Tests
use ise_endpoint_portal.Prelude.{
  ℕ, Bool, true, false, List, [], ◌∷◌, ◌++◌, Option, none, some, if◌then◌else◌, map, filter, ltb,
  length,
}
use ise_endpoint_portal.Js.Dict.{Dict, lookup, put, remove, keys}
use ise_endpoint_portal.Js.Text.{Text, codes, ◌===◌, truthy, trim, join, split_on, includes_text}

-- a field of a row: missing or `null`, a scalar as its text, or an array
pub data Field : Type 0 where
  missing : Field
  scalar : Text → Field
  many : List Text → Field

pub record Row : Type 0 where
  pub id : Text
  pub field : Text → Field

-- the keys of `DIMS`
abbrev pub dims : List Text
dims =
    codes "group_name"
    ∷ codes "profiler_name"
    ∷ codes "platform_type"
    ∷ codes "endpoint_type"
    ∷ codes "vendor"
    ∷ codes "owner"
    ∷ codes "lokation"
    ∷ codes "authz_vlan"
    ∷ codes "authz_acl"
    ∷ codes "status"
    ∷ codes "active_status"
    ∷ codes "guest_registration"
    ∷ codes "registret_by"
    ∷ codes "hypervision"
    ∷ []

-- `NONE`
abbrev pub none_key : Text
none_key = 0xe000 ∷ codes "none"

-- `MERGE_SEP`
abbrev pub merge_sep : ℕ
merge_sep = 1

abbrev pub field_text : Field → Text
field_text missing = []
field_text (scalar s) = trim s
field_text (many vs) = join (codes ", ") vs

-- `valueOf`
unfoldable pub value_of : Row → Text → Text
unfolding trim join
value_of r dim = field_text (r.field dim)

-- `valueOf(r, dim) || NONE`
unfoldable pub bucket_key : Text → Row → Text
unfolding value_of
bucket_key dim r = if truthy (value_of r dim) then value_of r dim else none_key

abbrev pub Buckets : Type 0
Buckets = Dict (List Row)

abbrev pub rows_or_none : Option (List Row) → List Row
rows_or_none none = []
rows_or_none (some rs) = rs

abbrev pub add_row : Text → Row → Buckets → Buckets
add_row k r bs = put k (rows_or_none (lookup k bs) ++ r ∷ []) bs

abbrev pub bucketize_from : Text → Buckets → List Row → Buckets
bucketize_from dim bs [] = bs
bucketize_from dim bs (r ∷ rs) = bucketize_from dim (add_row (bucket_key dim r) r bs) rs

-- `bucketize`
unfoldable pub bucketize : List Row → Text → Buckets
unfolding lookup put bucket_key
bucketize rows dim = bucketize_from dim [] rows

-- the members of a group that are keys
abbrev pub present_members : Buckets → List Text → List Text
present_members bs members = filter (includes_text (keys bs)) members

-- The rows of the members, and the buckets without them; `none` is the `TypeError` of spreading
-- `undefined`, for a member that is not there any more.
unfoldable pub take_members : List Text → Buckets → Option (List Row × Buckets)
unfolding lookup remove
take_members [] bs = some ([], bs)
take_members (m ∷ ms) bs = elim (lookup m bs) [
  | none ↦ none
  | some rs ↦ elim (take_members ms (remove m bs)) [
    | none ↦ none
    | some (more, bs') ↦ some (rs ++ more, bs')
  ]
]

-- the keys deleted one after the other
abbrev pub remove_all : List Text → Buckets → Buckets
remove_all [] bs = bs
remove_all (h ∷ hs) bs = remove_all hs (remove h bs)

-- The order of `localeCompare` is a parameter: a function that sorts.
module _ (sort : List Text → List Text) where
  -- `[…].sort(…).join(MERGE_SEP)`
  abbrev pub merged_key : List Text → Text
  merged_key members = join (merge_sep ∷ []) (sort members)

  -- one group of `applyMergesHidden`
  unfoldable pub apply_merge : List Text → Buckets → Option Buckets
  unfolding take_members put join includes_text
  apply_merge members bs =
      let present = present_members bs members in
      if ltb (length present) 2 then some bs else elim (take_members present bs) [
        | none ↦ none
        | some (combined, rest) ↦ some (put (merged_key present) combined rest)
      ]

  unfoldable pub apply_merges : List (List Text) → Buckets → Option Buckets
  unfolding apply_merge
  apply_merges [] bs = some bs
  apply_merges (g ∷ gs) bs = elim (apply_merge g bs) [
    | none ↦ none
    | some bs' ↦ apply_merges gs bs'
  ]

  -- `applyMergesHidden` with the groups and the hidden values of the path
  unfoldable pub apply_merges_hidden : List (List Text) → List Text → Buckets → Option Buckets
  unfolding apply_merges remove
  apply_merges_hidden merges hidden bs = elim (apply_merges merges bs) [
    | none ↦ none
    | some bs' ↦ some (remove_all hidden bs')
  ]
