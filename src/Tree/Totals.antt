-- ===== src/Tree/Totals.antt =====
-- How often the row with an identifier stands in the buckets of a level.
use ise_endpoint_portal.Prelude.{
  ℕ, ◌+◌, ◌≡◌, refl, sym, ap, ◌∙◌, inl, inr, Bool, true, false, not, ◌||◌, ◌&&◌, List, [], ◌∷◌,
  ◌++◌, none, some, map, arith, Bool-cases, any,
}
use mathlib.Core.List.{map-append}
use ise_endpoint_portal.Js.Dict.{lookup, put, remove, keys}
use ise_endpoint_portal.Js.Text.{Text, ◌===◌, includes_text}
use ise_endpoint_portal.Js.Text.Laws.{===_iff, ===_comm}
use ise_endpoint_portal.Js.Text.Count.{count, AreDistinct, count-append}
use ise_endpoint_portal.Tree.{Row, Buckets, add_row, bucketize_from, bucketize, bucket_key}
use ise_endpoint_portal.Tree.Buckets.{rows_at}

abbrev pub ids : List Row → List Text
ids = map (λ r. r.id)

abbrev pub total : Text → Buckets → ℕ
total i [] = 0
total i ((k, rs) ∷ bs) = count i (ids rs) + total i bs

abbrev pub is_key : Text → Buckets → Bool
is_key k bs = includes_text (keys bs) k

pub is_key-put :
    (k j : Text) (v : List Row) (bs : Buckets) → is_key j (put k v bs) ≡ (is_key j bs || k === j)
unfolding put includes_text
is_key-put k j v [] = ground arith
is_key-put k j v ((i, w) ∷ bs) =
    ground (arith, ===_iff i k, ===_iff i j, ===_iff k j, is_key-put k j v bs)

pub is_key-remove :
    (k j : Text) (bs : Buckets) → is_key j (remove k bs) ≡ (is_key j bs && not (k === j))
unfolding remove includes_text
is_key-remove k j [] = ground arith
is_key-remove k j ((i, w) ∷ bs) =
    ground (arith, ===_iff i k, ===_iff i j, ===_iff k j, is_key-remove k j bs)

pub remove-of_not_key : (k : Text) (bs : Buckets) → is_key k bs ≡ false → remove k bs ≡ bs
unfolding remove includes_text
remove-of_not_key k [] h = refl
remove-of_not_key k ((i, w) ∷ bs) h = ground (arith, remove-of_not_key k bs)

pub lookup-of_not_key : (k : Text) (bs : Buckets) → is_key k bs ≡ false → lookup k bs ≡ none
unfolding lookup includes_text
lookup-of_not_key k [] h = refl
lookup-of_not_key k ((i, w) ∷ bs) h = ground (arith, lookup-of_not_key k bs)

pub lookup-of_key :
    (k : Text) (bs : Buckets) → is_key k bs ≡ true → (rs : List Row) × (lookup k bs ≡ some rs)
unfolding lookup includes_text
lookup-of_key k [] h = absurd (cc)
lookup-of_key k ((i, w) ∷ bs) h = elim (Bool-cases (i === k)) [
  | inl e ↦ (w, rw e)
  | inr e ↦ let (rs, l) = lookup-of_key k bs (ground arith) in (rs, rw e l)
]

pub put-AreDistinct :
    (k : Text) (v : List Row) (bs : Buckets)
    → AreDistinct (keys bs)
    → AreDistinct (keys (put k v bs))
unfolding put
put-AreDistinct k v [] h = (unfold includes_text in refl, tt)
put-AreDistinct k v ((i, w) ∷ bs) (h, t) = elim (Bool-cases (i === k)) [
  | inl e ↦ rw e (h, t)
  | inr e ↦ rw e (rw (is_key-put k i v bs, h, ===_comm k i, e) refl, put-AreDistinct k v bs t)
]

pub remove-AreDistinct :
    (k : Text) (bs : Buckets) → AreDistinct (keys bs) → AreDistinct (keys (remove k bs))
unfolding remove
remove-AreDistinct k [] h = tt
remove-AreDistinct k ((i, w) ∷ bs) (h, t) = elim (Bool-cases (i === k)) [
  | inl e ↦ rw e (remove-AreDistinct k bs t)
  | inr e ↦ rw e (rw (is_key-remove k i bs, h) refl, remove-AreDistinct k bs t)
]

pub total-put :
    (i k : Text) (v : List Row) (bs : Buckets)
    → total i (put k v bs) + count i (ids (rows_at k bs)) ≡ count i (ids v) + total i bs
unfolding put lookup
total-put i k v [] = omega arith
total-put i k v ((j, w) ∷ bs) = elim (Bool-cases (j === k)) [
  | inl e ↦ rw e (omega arith)
  | inr e ↦ rw e (omega (arith, total-put i k v bs))
]

pub total-remove :
    (i k : Text) (bs : Buckets)
    → AreDistinct (keys bs)
    → count i (ids (rows_at k bs)) + total i (remove k bs) ≡ total i bs
unfolding lookup remove
total-remove i k [] h = refl
total-remove i k ((j, w) ∷ bs) (h, t) = elim (Bool-cases (j === k)) [
  | inl e ↦
      rw (e, remove-of_not_key k bs (ap (λ x. is_key x bs) (sym ((===_iff j k).0 e)) ∙ h)) refl
  | inr e ↦ rw e (omega (arith, total-remove i k bs t))
]

-- a row more under its key
total-add_row :
    (i k : Text) (r : Row) (bs : Buckets)
    → total i (add_row k r bs) ≡ count i (r.id ∷ []) + total i bs
total-add_row i k r bs = omega (
  arith,
  total-put i k (rows_at k bs ++ r ∷ []) bs,
  ap (count i) (map-append (λ r. r.id) (rows_at k bs) (r ∷ [])),
  count-append i (ids (rows_at k bs)) (r.id ∷ []),
)

total-bucketize_from :
    (i dim : Text) (bs : Buckets) (rows : List Row)
    → total i (bucketize_from dim bs rows) ≡ total i bs + count i (ids rows)
total-bucketize_from i dim bs [] = omega arith
total-bucketize_from i dim bs (r ∷ rows) = omega (
  arith,
  total-bucketize_from i dim (add_row (bucket_key dim r) r bs) rows,
  total-add_row i (bucket_key dim r) r bs,
)

pub total-bucketize :
    (i dim : Text) (rows : List Row) → total i (bucketize rows dim) ≡ count i (ids rows)
unfolding bucketize
total-bucketize i dim rows = omega (arith, total-bucketize_from i dim [] rows)

bucketize_from-AreDistinct :
    (dim : Text) (bs : Buckets) (rows : List Row)
    → AreDistinct (keys bs)
    → AreDistinct (keys (bucketize_from dim bs rows))
bucketize_from-AreDistinct dim bs [] h = h
bucketize_from-AreDistinct dim bs (r ∷ rows) h =
    bucketize_from-AreDistinct dim (add_row (bucket_key dim r) r bs) rows
      (put-AreDistinct (bucket_key dim r) _ bs h)

pub bucketize-AreDistinct : (dim : Text) (rows : List Row) → AreDistinct (keys (bucketize rows dim))
unfolding bucketize
bucketize-AreDistinct dim rows = bucketize_from-AreDistinct dim [] rows tt

is_key-bucketize_from :
    (dim k : Text) (bs : Buckets) (rows : List Row)
    → is_key k (bucketize_from dim bs rows)
      ≡ (is_key k bs || any (λ r. bucket_key dim r === k) rows)
is_key-bucketize_from dim k bs [] = ground arith
is_key-bucketize_from dim k bs (r ∷ rows) = ground (
  arith,
  is_key-bucketize_from dim k (add_row (bucket_key dim r) r bs) rows,
  is_key-put (bucket_key dim r) k (rows_at (bucket_key dim r) bs ++ r ∷ []) bs,
)

-- The keys of a level are the values of its rows.
pub is_key-bucketize :
    (dim k : Text) (rows : List Row)
    → is_key k (bucketize rows dim) ≡ any (λ r. bucket_key dim r === k) rows
unfolding bucketize includes_text
is_key-bucketize dim k rows = is_key-bucketize_from dim k [] rows
