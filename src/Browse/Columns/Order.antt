-- ===== src/Browse/Columns/Order.antt =====
-- Ordering the columns loses and adds none.
use mathlib.Core.List.{map-append}
use ise_endpoint_portal.Prelude.{
  ℕ, ◌+◌, ◌≤◌, ◌≡◌, refl, ap, inl, inr, not, List, [], ◌∷◌, Option, none, some, if◌then◌else◌,
  filter, filter_map, map, arith, Bool-cases, leb,
}
use ise_endpoint_portal.Js.Storage.{Entry, absent, unreadable, value}
use ise_endpoint_portal.Js.Text.{Text, ◌===◌, includes_text}
use ise_endpoint_portal.Js.Text.Laws.{===_iff}
use ise_endpoint_portal.Js.Text.Count.{
  count, IsDistinct, count-append, count-of_includes, count-of_not_includes,
}
use ise_endpoint_portal.Browse.Columns.{map_get, in_order, get_ordered_columns}

module _ {A : Type 0} (key : A → Text) where
  -- A column that is looked up has the key that it was looked up by, if there is one.
  abbrev Found : List A → Text → Option A → Type 0
  Found cols k none = count k (map key cols) ≡ 0
  Found cols k (some c) = (key c ≡ k) × (1 ≤ count k (map key cols))

  map_get-Found : (cols : List A) (k : Text) → Found cols k (map_get key cols k)
  unfolding map_get
  map_get-Found [] k = refl
  map_get-Found (c ∷ cols) k = step (map_get key cols k) (map_get-Found cols k)
    where
      step :
          (o : Option A)
          → Found cols k o
          → Found
              (c ∷ cols)
              k
              (elim o [ some d ↦ some d | none ↦ if key c === k then some c else none ])
      step (some d) (e, h) = (e, omega (arith, h))
      step none h = elim (Bool-cases (key c === k)) [
        | inl e ↦ rw e ((===_iff (key c) k).0 e, ground arith)
        | inr e ↦ rw e (ground arith)
      ]

  -- what one entry of the order adds
  count-entry :
      (cols : List A) (k o : Text) (found : Option A) (rest : List A) (n : ℕ)
      → Found cols o found
      → count k (map key rest) ≡ (if leb 1 (count k (map key cols)) then n else 0)
      → count k (map key (elim found [ none ↦ rest | some b ↦ b ∷ rest ]))
        ≡ (if leb 1 (count k (map key cols)) then (if o === k then 1 else 0) + n else 0)
  count-entry cols k o none rest n h ih = elim (Bool-cases (o === k)) [
    | inl e ↦ ground (arith, ih, h, ap (λ x. count x (map key cols)) ((===_iff o k).0 e))
    | inr e ↦ ground (arith, ih, e)
  ]
  count-entry cols k o (some c) rest n (e, h) ih = elim (Bool-cases (o === k)) [
    | inl f ↦
        ground (
          arith,
          ih,
          h,
          f,
          ap (λ x. x === k) e,
          ap (λ x. count x (map key cols)) ((===_iff o k).0 f),
        )
    | inr f ↦ ground (arith, ih, f, ap (λ x. x === k) e)
  ]

  count-found :
      (cols : List A) (k : Text) (order : List Text)
      → count k (map key (filter_map (map_get key cols) order))
        ≡ (if leb 1 (count k (map key cols)) then count k order else 0)
  count-found cols k [] = ground arith
  count-found cols k (o ∷ order) =
      count-entry cols k o (map_get key cols o) (filter_map (map_get key cols) order)
        (count k order) (map_get-Found cols o) (count-found cols k order)

  count-others :
      (k : Text) (order : List Text) (cols : List A)
      → count k (map key (filter (λ c. not (includes_text order (key c))) cols))
        ≡ (if includes_text order k then 0 else count k (map key cols))
  count-others k order [] = ground arith
  count-others k order (c ∷ cols) = elim (Bool-cases (key c === k)) [
    | inl e ↦
        ground
          (arith, count-others k order cols, e, ap (includes_text order) ((===_iff (key c) k).0 e))
    | inr e ↦ ground (arith, count-others k order cols, e)
  ]

  count-in_order :
      (cols : List A) (order : List Text) (k : Text)
      → IsDistinct (map key cols)
      → IsDistinct order
      → count k (map key (in_order key cols order)) ≡ count k (map key cols)
  count-in_order cols order k distinct once =
      rw
        (
          map-append key (filter_map (map_get key cols) order)
              (filter (λ c. not (includes_text order (key c))) cols),
          count-append,
          count-found cols k order,
          count-others k order cols,
        )
        (elim (Bool-cases (includes_text order k)) [
          | inl e ↦ ground (arith, e, count-of_includes k order e, once k, distinct k)
          | inr e ↦ ground (arith, e, count-of_not_includes k order e)
        ])

  -- The table shows each column exactly as often as there are columns with its key: a stored order
  -- hides none, repeats none and adds none, also where it is out of date. Provided neither the keys
  -- of the columns nor the names of the stored order repeat.
  pub count-get_ordered_columns :
      (cols : List A) (stored : Entry (List Text)) (k : Text)
      → IsDistinct (map key cols)
      → ((order : List Text) → stored ≡ value order → IsDistinct order)
      → count k (map key (get_ordered_columns key cols stored)) ≡ count k (map key cols)
  unfolding get_ordered_columns
  count-get_ordered_columns cols absent k distinct once = refl
  count-get_ordered_columns cols unreadable k distinct once = refl
  count-get_ordered_columns cols (value []) k distinct once = refl
  count-get_ordered_columns cols (value (o ∷ order)) k distinct once =
      count-in_order cols (o ∷ order) k distinct (once (o ∷ order) refl)
