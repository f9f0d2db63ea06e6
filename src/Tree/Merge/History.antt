-- ===== src/Tree/Merge/History.antt =====
-- What a user merges in the tree, and what the tree shows of it.
use ise_endpoint_portal.Prelude.{◌≡◌, false, List, [], All, some}
use ise_endpoint_portal.Js.Text.{Text, has_unit}
use ise_endpoint_portal.Js.Text.Count.{count}
use ise_endpoint_portal.Tree.{Row, Buckets, merge_sep, apply_merges, bucketize, bucket_key}
use ise_endpoint_portal.Tree.Totals.{ids, total}
use ise_endpoint_portal.Tree.Groups.{IsSort}
use ise_endpoint_portal.Tree.Shown.{total-apply_merges}
use ise_endpoint_portal.Tree.Merge.{merge_history}
use ise_endpoint_portal.Tree.Merge.Disjoint.{merge_history-IsGroup}

-- Whatever branches of a level are merged one after the other, from no groups, the merges of a
-- level whose values do not hold the separator succeed, and every row is shown exactly as often
-- as it is in the list, where sorting keeps the elements of a list and their number.
pub total-merge_history :
    (sort : List Text → List Text) (pairs : List (Text × Text)) (rows : List Row) (dim i : Text)
    → IsSort sort
    → All (λ r. has_unit merge_sep (bucket_key dim r) ≡ false) rows
    → (bs : Buckets) × (apply_merges sort (merge_history pairs []) (bucketize rows dim) ≡ some bs)
      × (total i bs ≡ count i (ids rows))
total-merge_history sort pairs rows dim i h n =
    total-apply_merges sort (merge_history pairs []) rows dim i h
      (merge_history-IsGroup pairs [] tt) n
