-- ===== src/Js/Text/Split.antt =====
-- Splitting a text behind a piece without the separator.
use ise_endpoint_portal.Prelude.{
  Bool-cases, inl, inr, List, ◌∙◌, true, All, ℕ, ◌≡◌, refl, ap, false, [], ◌∷◌, ◌++◌, ◌==◌, arith,
}
use ise_endpoint_portal.Js.Text.{join, Text, has_unit, split_on, prepend}
use ise_endpoint_portal.Js.Text.Laws.{has_unit-append}

==-of_not_has : (sep c : ℕ) (s : Text) → has_unit sep (c ∷ s) ≡ false → (c == sep) ≡ false
unfolding has_unit
==-of_not_has sep c s h = ground arith

pub split_on-part :
    (sep : ℕ) (s rest : Text)
    → has_unit sep s ≡ false
    → split_on sep (s ++ sep ∷ rest) ≡ s ∷ split_on sep rest
unfolding split_on has_unit
split_on-part sep [] rest h = ground arith
split_on-part sep (c ∷ s) rest h =
    rw (==-of_not_has sep c s h) (ap (prepend c) (split_on-part sep s rest (ground arith)))

pub split_on-last : (sep : ℕ) (s : Text) → has_unit sep s ≡ false → split_on sep s ≡ s ∷ []
unfolding split_on has_unit
split_on-last sep [] h = refl
split_on-last sep (c ∷ s) h =
    rw (==-of_not_has sep c s h) (ap (prepend c) (split_on-last sep s (ground arith)))

-- Pieces that are joined by a separator that none of them holds.
pub split_on-join :
    (sep : ℕ) (s : Text) (parts : List Text)
    → All (λ x. has_unit sep x ≡ false) (s ∷ parts)
    → split_on sep (join (sep ∷ []) (s ∷ parts)) ≡ s ∷ parts
unfolding join
split_on-join sep s [] (h, _) = split_on-last sep s h
split_on-join sep s (q ∷ parts) (h, t) =
    split_on-part sep s (join (sep ∷ []) (q ∷ parts)) h ∙ ap (◌∷◌ s) (split_on-join sep q parts t)

-- Two pieces or more are joined with a separator.
pub has_unit-join :
    (sep : ℕ) (s q : Text) (parts : List Text)
    → has_unit sep (join (sep ∷ []) (s ∷ q ∷ parts)) ≡ true
unfolding join has_unit
has_unit-join sep s q parts = rw (has_unit-append) (ground arith)

prepend-All :
    (sep c : ℕ) (ps : List Text)
    → (c == sep) ≡ false
    → All (λ x. has_unit sep x ≡ false) ps
    → All (λ x. has_unit sep x ≡ false) (prepend c ps)
unfolding has_unit
prepend-All sep c [] e h = (ground (arith, e), tt)
prepend-All sep c (p ∷ ps) e (h, t) = (ground (arith, e, h), t)

-- The pieces of a text do not hold the separator.
pub split_on-All : (sep : ℕ) (s : Text) → All (λ x. has_unit sep x ≡ false) (split_on sep s)
unfolding split_on has_unit
split_on-All sep [] = (refl, tt)
split_on-All sep (c ∷ s) = elim (Bool-cases (c == sep)) [
  | inl e ↦ rw e (refl, split_on-All sep s)
  | inr e ↦ rw e (prepend-All sep c (split_on sep s) e (split_on-All sep s))
]
