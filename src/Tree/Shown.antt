-- ===== src/Tree/Shown.antt =====
-- Merging branches loses no row and shows none twice.
use ise_endpoint_portal.Prelude.{
  ◌≡◌, refl, sym, ap, ◌∙◌, inl, inr, true, false, not, ◌||◌, ◌&&◌, List, [], ◌∷◌, Option, none,
  some, if◌then◌else◌, arith, Bool-cases, any, length, ltb, All,
}
use ise_endpoint_portal.Js.Dict.{remove, keys, lookup-remove}
use ise_endpoint_portal.Js.Text.{Text, ◌===◌, includes_text, has_unit, split_on}
use ise_endpoint_portal.Js.Text.Laws.{===_iff, includes_text-filter}
use ise_endpoint_portal.Js.Text.Count.{count, AreDistinct}
use ise_endpoint_portal.Js.Text.Split.{split_on-All}
use ise_endpoint_portal.Tree.{
  Row, Buckets, rows_or_none, merge_sep, present_members, merged_key, apply_merge, apply_merges,
  remove_all, apply_merges_hidden, bucketize, bucket_key,
}
use ise_endpoint_portal.Tree.Buckets.{rows_at}
use ise_endpoint_portal.Tree.Totals.{
  ids, total, is_key, total-bucketize, bucketize-AreDistinct, is_key-bucketize,
}
use ise_endpoint_portal.Tree.Taken.{put-Merged}
use ise_endpoint_portal.Tree.Groups.{
  IsGroup, ApartFrom, IsSort, filter-AreDistinct, filter-All, All-of_includes, join_parts,
  some_member,
}

-- A piece without the separator is not a merged key.
not_merged :
    (xs : List Text) (m k : Text)
    → All (λ x. has_unit merge_sep x ≡ false) xs
    → includes_text xs m ≡ true
    → has_unit merge_sep k ≡ true
    → (k === m) ≡ false
unfolding includes_text
not_merged [] m k h i s = absurd (cc i)
not_merged (x ∷ xs) m k (h, t) i s = elim (Bool-cases (x === m)) [
  | inl e ↦ elim (Bool-cases (k === m)) [
    | inl f ↦ absurd (
        cc (
          ap (has_unit merge_sep) ((===_iff x m).0 e),
          ap (has_unit merge_sep) ((===_iff k m).0 f),
        ))
    | inr f ↦ f
  ]
  | inr e ↦ not_merged xs m k t (ground arith) s
]

-- the buckets after one group
record Stepped (sort : List Text → List Text) (g : List Text) (bs : Buckets) : Type 0 where
  buckets : Buckets
  stepped : apply_merge sort g bs ≡ some buckets
  same : (i : Text) → total i buckets ≡ total i bs
  distinct : AreDistinct (keys buckets)
  apart : ApartFrom buckets

module _ (sort : List Text → List Text) (h : IsSort sort) where
  sorted_parts :
      (ps : List Text)
      → All (λ x. has_unit merge_sep x ≡ false) ps
      → ltb (length ps) 2 ≡ false
      → (split_on merge_sep (merged_key sort ps) ≡ sort ps)
        × (has_unit merge_sep (merged_key sort ps) ≡ true)
  sorted_parts ps n l =
      join_parts (sort ps)
        (All-of_includes merge_sep (sort ps) ps n (λ x i. sym (h.same_members ps x) ∙ i))
        (ap (λ n. ltb n 2) (h.same_length ps) ∙ l)

  -- The key of a group is a new one.
  merged_key-fresh :
      (ps : List Text) (bs : Buckets)
      → All (λ x. has_unit merge_sep x ≡ false) ps
      → ltb (length ps) 2 ≡ false
      → ((m : Text) → includes_text ps m ≡ true → is_key m bs ≡ true)
      → ApartFrom bs
      → is_key (merged_key sort ps) bs ≡ false
  merged_key-fresh ps bs n l sub a =
      let (m, i) = some_member ps l in
      let (parts, sep) = sorted_parts ps n l in
      elim (Bool-cases (is_key (merged_key sort ps) bs)) [
        | inl e ↦
            let out =
              a (merged_key sort ps) m e sep
                (ap (λ xs. includes_text xs m) parts ∙ h.same_members ps m ∙ i) in
            absurd (cc (out, sub m i))
        | inr e ↦ e
      ]

  put-ApartFrom :
      (ps : List Text) (bs new : Buckets)
      → All (λ x. has_unit merge_sep x ≡ false) ps
      → ltb (length ps) 2 ≡ false
      → ApartFrom bs
      → ((k : Text)
          → is_key k new ≡ ((is_key k bs && not (includes_text ps k)) || merged_key sort ps === k))
      → ApartFrom new
  put-ApartFrom ps bs new n l a left k m i sep j =
      let (parts, merged_sep) = sorted_parts ps n l in
      let other =
        not_merged (split_on merge_sep k) m (merged_key sort ps) (split_on-All merge_sep k) j
          merged_sep in
      elim (Bool-cases (merged_key sort ps === k)) [
        | inl e ↦
            let of_key = ap (split_on merge_sep) (sym ((===_iff _ k).0 e)) ∙ parts in
            let taken : includes_text ps m ≡ true =
              sym (h.same_members ps m) ∙ ap (λ xs. includes_text xs m) (sym of_key) ∙ j in
            ground (arith, left m, other, taken)
        | inr e ↦
            let absent : is_key m bs ≡ false = a k m (ground (arith, left k, i, e)) sep j in
            ground (arith, left m, other, absent)
      ]

  apply_merge-Stepped :
      (g : List Text) (bs : Buckets)
      → IsGroup g
      → AreDistinct (keys bs)
      → ApartFrom bs
      → Stepped sort g bs
  unfolding apply_merge
  apply_merge-Stepped g bs (gd, gn) d a =
      let ps = present_members bs g in
      elim (Bool-cases (ltb (length ps) 2)) [
        | inl e ↦ record {
          buckets = bs;
          stepped = rw e refl;
          same = λ i. refl;
          distinct = d;
          apart = a;
        }
        | inr e ↦
            let in_group : (m : Text) → includes_text ps m ≡ true → includes_text g m ≡ true =
              λ m i. ground (arith, includes_text-filter (includes_text (keys bs)) g m, i) in
            let in_keys : (m : Text) → includes_text ps m ≡ true → is_key m bs ≡ true =
              λ m i. ground (arith, includes_text-filter (includes_text (keys bs)) g m, i) in
            let n = All-of_includes merge_sep ps g gn in_group in
            let mg =
              put-Merged sort ps bs (filter-AreDistinct (includes_text (keys bs)) g gd) d
                (filter-All (includes_text (keys bs)) g) (merged_key-fresh ps bs n e in_keys a) in
            record {
              buckets = mg.buckets;
              stepped = rw e mg.merged;
              same = mg.same;
              distinct = mg.distinct;
              apart = put-ApartFrom ps bs mg.buckets n e a mg.left;
            }
      ]

  apply_merges-cons :
      (g : List Text) (gs : List (List Text)) (bs new out : Buckets)
      → apply_merge sort g bs ≡ some new
      → apply_merges sort gs new ≡ some out
      → apply_merges sort (g ∷ gs) bs ≡ some out
  unfolding apply_merges
  apply_merges-cons g gs bs new out e k = rw (e, apply_merges) k

  apply_merges-total_from :
      (gs : List (List Text)) (bs : Buckets)
      → All IsGroup gs
      → AreDistinct (keys bs)
      → ApartFrom bs
      → (bs' : Buckets) × (apply_merges sort gs bs ≡ some bs')
        × ((i : Text) → total i bs' ≡ total i bs)
        × AreDistinct (keys bs')
  unfolding apply_merges
  apply_merges-total_from [] bs g u a = (bs, refl, λ i. refl, u)
  apply_merges-total_from (g ∷ gs) bs (ig, igs) u a =
      let st = apply_merge-Stepped g bs ig u a in
      let (bs', e, same, u') = apply_merges-total_from gs st.buckets igs st.distinct st.apart in
      (bs', apply_merges-cons g gs bs st.buckets bs' st.stepped e, λ i. same i ∙ st.same i, u')

-- A key that no hidden value is keeps its rows, a hidden one has none.
pub rows_at-remove_all :
    (hs : List Text) (j : Text) (bs : Buckets)
    → rows_at j (remove_all hs bs) ≡ (if includes_text hs j then [] else rows_at j bs)
unfolding includes_text
rows_at-remove_all [] j bs = refl
rows_at-remove_all (x ∷ hs) j bs = ground (
  arith,
  rows_at-remove_all hs j (remove x bs),
  lookup-remove x j bs,
  ap rows_or_none (lookup-remove x j bs),
)

bucketize-ApartFrom :
    (rows : List Row) (dim : Text)
    → All (λ r. has_unit merge_sep (bucket_key dim r) ≡ false) rows
    → ApartFrom (bucketize rows dim)
bucketize-ApartFrom rows dim h k m i s j =
    absurd (cc (s, plain rows h (sym (is_key-bucketize dim k rows) ∙ i)))
  where
    plain :
        (rs : List Row)
        → All (λ r. has_unit merge_sep (bucket_key dim r) ≡ false) rs
        → any (λ r. bucket_key dim r === k) rs ≡ true
        → has_unit merge_sep k ≡ false
    plain [] t e = absurd (cc e)
    plain (r ∷ rs) (n, t) e = elim (Bool-cases (bucket_key dim r === k)) [
      | inl y ↦ ap (has_unit merge_sep) (sym ((===_iff _ k).0 y)) ∙ n
      | inr y ↦ plain rs t (ground arith)
    ]

-- Merging branches of a level, by groups of values without the separator, succeeds, and
-- shows every row exactly as often as it is in the list.
pub total-apply_merges :
    (sort : List Text → List Text) (merges : List (List Text)) (rows : List Row) (dim i : Text)
    → IsSort sort
    → All IsGroup merges
    → All (λ r. has_unit merge_sep (bucket_key dim r) ≡ false) rows
    → (bs : Buckets) × (apply_merges sort merges (bucketize rows dim) ≡ some bs)
      × (total i bs ≡ count i (ids rows))
total-apply_merges sort merges rows dim i h g n =
    let (bs, e, same, _) =
      apply_merges-total_from sort h merges (bucketize rows dim) g (bucketize-AreDistinct dim rows)
        (bucketize-ApartFrom rows dim n) in
    (bs, e, same i ∙ total-bucketize i dim rows)

abbrev pub map_option : {A B : Type 0} → (A → B) → Option A → Option B
map_option f none = none
map_option f (some x) = some (f x)

-- Behind the merges exactly the hidden values are gone from the level, whatever they were merged to.
rows_at-apply_merges_hidden :
    (sort : List Text → List Text) (merges : List (List Text)) (hidden : List Text) (bs : Buckets)
    (j : Text)
    → map_option (rows_at j) (apply_merges_hidden sort merges hidden bs)
      ≡ map_option
          (λ b. if includes_text hidden j then [] else rows_at j b)
          (apply_merges sort merges bs)
unfolding apply_merges_hidden
rows_at-apply_merges_hidden sort merges hidden bs j =
    elim (apply_merges sort merges bs)
      as (λ x.
        map_option (rows_at j) (elim x [ none ↦ none | some m ↦ some (remove_all hidden m) ])
        ≡ map_option (λ b. if includes_text hidden j then [] else rows_at j b) x) [
          | none ↦ refl
          | some b ↦ ap some (rows_at-remove_all hidden j b)
        ]
