-- ===== src/Tree/Buckets.antt =====
-- Every row is in the bucket of its value, and in no other.
use ise_endpoint_portal.Prelude.{
  ◌≡◌, refl, sym, ap, Bool, true, false, not, ◌||◌, ◌∙◌, inl, inr, List, [], ◌∷◌, ◌++◌,
  if◌then◌else◌, filter, Bool-cases,
}
use mathlib.Core.List.{append_assoc, append-nil}
use ise_endpoint_portal.Js.Dict.{lookup, lookup-put}
use ise_endpoint_portal.Js.Text.{Text, ◌===◌, truthy}
use ise_endpoint_portal.Js.Text.Laws.{===_iff, ===_comm, ===_refl}
use ise_endpoint_portal.Tree.{
  Row, none_key, value_of, bucket_key, Buckets, rows_or_none, add_row, bucketize_from, bucketize,
}

-- the rows under a key
abbrev pub rows_at : Text → Buckets → List Row
rows_at k bs = rows_or_none (lookup k bs)

rows_at-add_row :
    (k j : Text) (r : Row) (bs : Buckets)
    → rows_at j (add_row k r bs) ≡ (if k === j then rows_at j bs ++ r ∷ [] else rows_at j bs)
rows_at-add_row k j r bs = elim (Bool-cases (k === j)) [
  | inl e ↦
      rw (lookup-put k j (rows_at k bs ++ r ∷ []) bs, e)
        (ap (λ x. rows_at x bs ++ r ∷ []) ((===_iff k j).0 e))
  | inr e ↦ rw (lookup-put k j (rows_at k bs ++ r ∷ []) bs, e)
]

rows_at-bucketize_from :
    (dim j : Text) (bs : Buckets) (rows : List Row)
    → rows_at j (bucketize_from dim bs rows)
      ≡ rows_at j bs ++ filter (λ r. bucket_key dim r === j) rows
rows_at-bucketize_from dim j bs [] = sym (append-nil (rows_at j bs))
rows_at-bucketize_from dim j bs (r ∷ rows) =
    rows_at-bucketize_from dim j (add_row (bucket_key dim r) r bs) rows
    ∙ elim (Bool-cases (bucket_key dim r === j)) [
      | inl e ↦
          rw (rows_at-add_row (bucket_key dim r) j r bs, e) (append_assoc (rows_at j bs) (r ∷ []) _)
      | inr e ↦ rw (rows_at-add_row (bucket_key dim r) j r bs, e)
    ]

rows_at-bucketize_key :
    (rows : List Row) (dim j : Text)
    → rows_at j (bucketize rows dim) ≡ filter (λ r. bucket_key dim r === j) rows
unfolding bucketize
rows_at-bucketize_key rows dim j = rows_at-bucketize_from dim j [] rows

filter-same :
    (p q : Row → Bool) (rows : List Row) → ((r : Row) → p r ≡ q r) → filter p rows ≡ filter q rows
filter-same p q [] h = refl
filter-same p q (r ∷ rows) h =
    ap (λ b. if b then r ∷ filter p rows else filter p rows) (h r)
    ∙ ap (λ xs. if q r then r ∷ xs else xs) (filter-same p q rows h)

filter-none : (p : Row → Bool) (rows : List Row) → ((r : Row) → p r ≡ false) → filter p rows ≡ []
filter-none p [] h = refl
filter-none p (r ∷ rows) h = rw (h r) (filter-none p rows h)

empty-not : (t : Text) → truthy t ≡ true → (t === []) ≡ false
unfolding ◌===◌
empty-not [] h = cc h
empty-not (c ∷ t) h = refl

not-empty : (t : Text) → truthy t ≡ false → t ≡ []
not-empty [] h = refl
not-empty (c ∷ t) h = cc h

-- no row is under the empty text
key-not_empty : (dim : Text) (r : Row) → (bucket_key dim r === []) ≡ false
unfolding bucket_key
key-not_empty dim r = elim (Bool-cases (truthy (value_of r dim))) [
  | inl e ↦ rw e (empty-not (value_of r dim) e)
  | inr e ↦ rw e (empty-not none_key refl)
]

-- a key other than the one for none holds the rows with that value
key-value :
    (dim j : Text) (r : Row)
    → truthy j ≡ true
    → (j === none_key) ≡ false
    → (bucket_key dim r === j) ≡ (value_of r dim === j)
unfolding bucket_key
key-value dim j r t o = elim (Bool-cases (truthy (value_of r dim))) [
  | inl e ↦ rw e refl
  | inr e ↦
      ap (λ b. (if b then value_of r dim else none_key) === j) e
      ∙ ===_comm none_key j
      ∙ o
      ∙ sym (ap (λ v. v === j) (not-empty (value_of r dim) e) ∙ ===_comm [] j ∙ empty-not j t)
]

-- the key for none holds the rows without a value, and those with that value
key-none :
    (dim : Text) (r : Row)
    → (bucket_key dim r === none_key)
      ≡ (not (truthy (value_of r dim)) || value_of r dim === none_key)
unfolding bucket_key
key-none dim r = elim (Bool-cases (truthy (value_of r dim))) [
  | inl e ↦ rw e refl
  | inr e ↦ rw e (===_refl none_key)
]

-- A row is under its value, and a row without a value under the key for none: the rows under any other
-- text that is not empty are, in their order, the rows with that value, those under the key for none are
-- the rows without a value or with that text as their value, and no row is under the empty text.
pub rows_at-bucketize :
    (rows : List Row) (dim j : Text)
    → truthy j ≡ true
    → (j === none_key) ≡ false
    → (rows_at j (bucketize rows dim) ≡ filter (λ r. value_of r dim === j) rows)
      × (rows_at none_key (bucketize rows dim)
          ≡ filter (λ r. not (truthy (value_of r dim)) || value_of r dim === none_key) rows)
      × (rows_at [] (bucketize rows dim) ≡ [])
rows_at-bucketize rows dim j t o = (
  rows_at-bucketize_key rows dim j
      ∙ filter-same (λ r. bucket_key dim r === j) (λ r. value_of r dim === j) rows
          (λ r. key-value dim j r t o),
  rows_at-bucketize_key rows dim none_key
      ∙ filter-same (λ r. bucket_key dim r === none_key)
          (λ r. not (truthy (value_of r dim)) || value_of r dim === none_key) rows (key-none dim),
  rows_at-bucketize_key rows dim []
      ∙ filter-none (λ r. bucket_key dim r === []) rows (key-not_empty dim),
)
