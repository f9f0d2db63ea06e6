-- ===== src/Tree/Taken.antt =====
-- Taking the members of a group out of the buckets loses no row.
use ise_endpoint_portal.Prelude.{
  ◌+◌, ◌≡◌, refl, ap, ◌∙◌, true, false, not, ◌||◌, ◌&&◌, List, [], ◌∷◌, ◌++◌, none, some, arith,
  All,
}
use mathlib.Core.List.{map-append}
use ise_endpoint_portal.Js.Dict.{lookup, put, remove, keys}
use ise_endpoint_portal.Js.Text.{Text, ◌===◌, includes_text}
use ise_endpoint_portal.Js.Text.Laws.{===_comm}
use ise_endpoint_portal.Js.Text.Count.{count, AreDistinct, count-append}
use ise_endpoint_portal.Tree.{Row, Buckets, rows_or_none, take_members, merged_key}
use ise_endpoint_portal.Tree.Totals.{
  ids, total, is_key, is_key-put, is_key-remove, lookup-of_key, lookup-of_not_key, put-AreDistinct,
  remove-AreDistinct, total-put, total-remove,
}

-- What taking the members of a group out of the buckets leaves.
record Taken (ms : List Text) (bs : Buckets) : Type 0 where
  rows : List Row
  rest : Buckets
  taken : take_members ms bs ≡ some (rows, rest)
  pub same : (i : Text) → count i (ids rows) + total i rest ≡ total i bs
  pub distinct : AreDistinct (keys rest)
  pub left : (k : Text) → is_key k rest ≡ (is_key k bs && not (includes_text ms k))

remove-All :
    (m : Text) (ms : List Text) (bs : Buckets)
    → includes_text ms m ≡ false
    → All (λ x. is_key x bs ≡ true) ms
    → All (λ x. is_key x (remove m bs) ≡ true) ms
unfolding includes_text
remove-All m [] bs f h = tt
remove-All m (x ∷ ms) bs f (h, t) =
    (ground (arith, is_key-remove m x bs, ===_comm x m), remove-All m ms bs (ground arith) t)

take_members-cons :
    (m : Text) (ms : List Text) (bs : Buckets) (rs more : List Row) (bs' : Buckets)
    → lookup m bs ≡ some rs
    → take_members ms (remove m bs) ≡ some (more, bs')
    → take_members (m ∷ ms) bs ≡ some (rs ++ more, bs')
unfolding take_members
take_members-cons m ms bs rs more bs' h k = ground (arith, h, k)

take_members-Taken :
    (ms : List Text) (bs : Buckets)
    → AreDistinct ms
    → AreDistinct (keys bs)
    → All (λ m. is_key m bs ≡ true) ms
    → Taken ms bs
unfolding take_members
take_members-Taken [] bs d u h = record {
  rows = [];
  rest = bs;
  taken = refl;
  same = λ i. omega arith;
  distinct = u;
  left = λ k. unfold includes_text in ground arith;
}
take_members-Taken (m ∷ ms) bs (fresh, d) u (h, t) =
    let (rs, l) = lookup-of_key m bs h in
    let ih =
      take_members-Taken ms (remove m bs) d (remove-AreDistinct m bs u)
        (remove-All m ms bs fresh t) in
    record {
      rows = rs ++ ih.rows;
      rest = ih.rest;
      taken = take_members-cons m ms bs rs ih.rows ih.rest l ih.taken;
      same = λ i. omega (
        arith,
        total-remove i m bs u,
        ap (λ x. count i (ids (rows_or_none x))) l,
        ih.same i,
        ap (count i) (map-append (λ r. r.id) rs ih.rows),
        count-append i (ids rs) (ids ih.rows),
      );
      distinct = ih.distinct;
      left = λ k. ih.left k ∙ (unfold includes_text in ground (arith, is_key-remove m k bs));
    }

-- the rows and the keys after the members of a group are merged
pub record Merged (sort : List Text → List Text) (ps : List Text) (bs : Buckets) : Type 0 where
  pub buckets : Buckets
  pub merged :
      (elim (take_members ps bs) [
        | none ↦ none
        | some (combined, rest) ↦ some (put (merged_key sort ps) combined rest)
      ])
      ≡ some buckets
  pub same : (i : Text) → total i buckets ≡ total i bs
  pub distinct : AreDistinct (keys buckets)
  pub left :
      (k : Text)
      → is_key k buckets ≡ ((is_key k bs && not (includes_text ps k)) || merged_key sort ps === k)

module _ (sort : List Text → List Text) where
  pub put-Merged :
      (ps : List Text) (bs : Buckets)
      → AreDistinct ps
      → AreDistinct (keys bs)
      → All (λ m. is_key m bs ≡ true) ps
      → is_key (merged_key sort ps) bs ≡ false
      → Merged sort ps bs
  put-Merged ps bs d u p f =
      let t = take_members-Taken ps bs d u p in
      let k = merged_key sort ps in
      let fresh : is_key k t.rest ≡ false = ground (arith, t.left k) in
      record {
        buckets = put k t.rows t.rest;
        merged = rw t.taken refl;
        same = λ i. omega (
          arith,
          t.same i,
          total-put i k t.rows t.rest,
          ap (λ x. count i (ids (rows_or_none x))) (lookup-of_not_key k t.rest fresh),
        );
        distinct = put-AreDistinct k t.rows t.rest t.distinct;
        left = λ j. is_key-put k j t.rows t.rest ∙ ap (λ b. b || k === j) (t.left j);
      }
