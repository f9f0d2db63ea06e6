-- ===== src/Js/Text/Count.antt =====
-- How often a text stands in a list.
use ise_endpoint_portal.Prelude.{
  ℕ, ◌+◌, ◌≤◌, ◌≡◌, refl, ap, inl, inr, true, false, List, [], ◌∷◌, ◌++◌, if◌then◌else◌, arith,
  Bool-cases,
}
use ise_endpoint_portal.Js.Text.{Text, ◌===◌, includes_text}
use ise_endpoint_portal.Js.Text.Laws.{===_iff}

-- how often a text stands in a list
abbrev pub count : Text → List Text → ℕ
count k [] = 0
count k (x ∷ xs) = (if x === k then 1 else 0) + count k xs

abbrev pub IsDistinct : List Text → Type 0
IsDistinct xs = (k : Text) → count k xs ≤ 1

pub count-append : (k : Text) (xs ys : List Text) → count k (xs ++ ys) ≡ count k xs + count k ys
count-append k [] ys = omega arith
count-append k (x ∷ xs) ys = omega (arith, count-append k xs ys)

pub count-of_not_includes :
    (k : Text) (xs : List Text) → includes_text xs k ≡ false → count k xs ≡ 0
unfolding includes_text
count-of_not_includes k [] h = refl
count-of_not_includes k (x ∷ xs) h = ground (arith, count-of_not_includes k xs)

pub count-of_includes : (k : Text) (xs : List Text) → includes_text xs k ≡ true → 1 ≤ count k xs
unfolding includes_text
count-of_includes k [] h = ground arith
count-of_includes k (x ∷ xs) h = ground (arith, count-of_includes k xs)

pub cons-IsDistinct :
    (x : Text) (xs : List Text) → includes_text xs x ≡ false → IsDistinct xs → IsDistinct (x ∷ xs)
cons-IsDistinct x xs h d k = elim (Bool-cases (x === k)) [
  | inl e ↦
      ground (arith, e, count-of_not_includes x xs h, ap (λ y. count y xs) ((===_iff x k).0 e))
  | inr e ↦ ground (arith, e, d k)
]

pub nil-IsDistinct : IsDistinct []
nil-IsDistinct k = omega arith

-- No text stands in a list twice.
abbrev pub AreDistinct : List Text → Type 0
AreDistinct [] = Unit
AreDistinct (x ∷ xs) = (includes_text xs x ≡ false) × AreDistinct xs
