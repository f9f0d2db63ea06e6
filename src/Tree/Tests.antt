-- ===== src/Tree/Tests.antt =====
-- Concrete trees.
use ise_endpoint_portal.Prelude.{
  ℕ, suc, ◌≡◌, refl, ap, ◌∙◌, false, not, ◌||◌, List, [], ◌∷◌, ◌++◌, if◌then◌else◌, ltb, length,
  filter, arith, All, some,
}
use ise_endpoint_portal.Js.Text.{Text, codes, ◌===◌, truthy, includes_text, has_unit, trim, join}
use ise_endpoint_portal.Js.Text.Count.{count}
use ise_endpoint_portal.Tree.{
  Row, Buckets, missing, scalar, bucketize, bucket_key, value_of, none_key, merge_sep, merged_key,
  apply_merges,
}
use ise_endpoint_portal.Tree.Totals.{ids, total}
use ise_endpoint_portal.Tree.Groups.{IsSort, AreDisjoint}
use ise_endpoint_portal.Tree.Buckets.{rows_at, rows_at-bucketize}
use ise_endpoint_portal.Tree.Merge.{merge_history, merge_members, add_all}
use ise_endpoint_portal.Tree.Merge.Disjoint.{merge_history-AreDisjoint}
use ise_endpoint_portal.Tree.Paths.{node_path, merged_node_path}
use ise_endpoint_portal.Tree.Paths.Parts.{has_slashes, merged_node_path-node_path}
use ise_endpoint_portal.Tree.Merge.History.{total-merge_history}

abbrev first_unit : Text → ℕ
first_unit [] = 0
first_unit (c ∷ s) = c

abbrev insert : Text → List Text → List Text
insert x [] = x ∷ []
insert x (y ∷ ys) =
    let rest = insert x ys in if ltb (first_unit y) (first_unit x) then y ∷ rest else x ∷ y ∷ ys

-- texts by their first unit
abbrev by_first : List Text → List Text
by_first [] = []
by_first (x ∷ xs) = insert x (by_first xs)

includes_text-insert :
    (x : Text) (ys : List Text) (m : Text)
    → includes_text (insert x ys) m ≡ (x === m || includes_text ys m)
unfolding includes_text
includes_text-insert x [] m = ground arith
includes_text-insert x (y ∷ ys) m = ground (arith, includes_text-insert x ys m)

length-insert : (x : Text) (ys : List Text) → length (insert x ys) ≡ length (x ∷ ys)
length-insert x [] = refl
length-insert x (y ∷ ys) = ground (arith, length-insert x ys)

includes_text-by_first :
    (xs : List Text) (x : Text) → includes_text (by_first xs) x ≡ includes_text xs x
unfolding includes_text
includes_text-by_first [] x = refl
includes_text-by_first (y ∷ xs) x =
    includes_text-insert y (by_first xs) x ∙ ap (λ b. y === x || b) (includes_text-by_first xs x)

length-by_first : (xs : List Text) → length (by_first xs) ≡ length xs
length-by_first [] = refl
length-by_first (y ∷ xs) = length-insert y (by_first xs) ∙ ap suc (length-by_first xs)

by_first-IsSort : IsSort by_first
by_first-IsSort = record { same_members = includes_text-by_first; same_length = length-by_first }

abbrev row : Text → Text → Row
row i v = record { id = i; field = λ k. if k === codes "vendor" then scalar v else missing }

abbrev three_rows : List Row
three_rows =
    row (codes "1") (codes "Cisco")
    ∷ row (codes "2") (codes "HP ")
    ∷ row (codes "3") (codes "Apple")
    ∷ []

three_rows-plain : All (λ r. has_unit merge_sep (bucket_key (codes "vendor") r) ≡ false) three_rows
unfolding has_unit bucket_key value_of trim join ◌===◌
three_rows-plain = (refl, (refl, (refl, tt)))

total-merge_history_example :
    (bs : Buckets) × (apply_merges by_first
        (merge_history ((codes "HP", codes "Apple") ∷ []) [])
        (bucketize three_rows (codes "vendor"))
      ≡ some bs)
    × (total (codes "2") bs ≡ count (codes "2") (ids three_rows))
total-merge_history_example =
    total-merge_history by_first ((codes "HP", codes "Apple") ∷ []) three_rows (codes "vendor")
      (codes "2") by_first-IsSort three_rows-plain

named : ((codes "HP") === none_key) ≡ false
unfolding ◌===◌
named = refl

rows_at-bucketize_example :
    (rows_at (codes "HP") (bucketize three_rows (codes "vendor"))
      ≡ filter (λ r. value_of r (codes "vendor") === codes "HP") three_rows)
    × (rows_at none_key (bucketize three_rows (codes "vendor"))
        ≡ filter
            (λ r.
              not (truthy (value_of r (codes "vendor")))
              || value_of r (codes "vendor") === none_key)
            three_rows)
    × (rows_at [] (bucketize three_rows (codes "vendor")) ≡ [])
rows_at-bucketize_example = rows_at-bucketize three_rows (codes "vendor") (codes "HP") refl named

abbrev two_merges : List (Text × Text)
two_merges = (codes "HP", codes "Apple") ∷ (codes "Apple", codes "Cisco") ∷ []

merge_history-AreDisjoint_example : AreDisjoint (merge_history two_merges [])
merge_history-AreDisjoint_example = merge_history-AreDisjoint two_merges

hp-has_slashes : has_slashes (codes "HP") ≡ false
hp-has_slashes = refl

vendor-slash : has_unit b'/' (codes "vendor") ≡ false
unfolding has_unit
vendor-slash = refl

vendor-colon : has_unit b':' (codes "vendor") ≡ false
unfolding has_unit
vendor-colon = refl

merged_node_path-node_path_example :
    merged_node_path by_first
      (node_path [] (codes "vendor") (codes "HP"))
      (codes "HP")
      (codes "Apple")
    ≡ node_path [] (codes "vendor") (
        merged_key by_first
          (add_all [] (merge_members (codes "HP") ++ merge_members (codes "Apple"))))
merged_node_path-node_path_example =
    merged_node_path-node_path by_first [] (codes "vendor") (codes "HP") (codes "HP")
      (codes "Apple") vendor-slash vendor-colon hp-has_slashes
