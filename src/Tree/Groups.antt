-- ===== src/Tree/Groups.antt =====
-- Groups of values, and the keys they are merged under.
use ise_endpoint_portal.Prelude.{
  ℕ, ◌≡◌, refl, sym, ap, ◌∙◌, inl, inr, Bool, true, false, List, [], ◌∷◌, arith, Bool-cases, filter,
  length, ltb, All,
}
use ise_endpoint_portal.Js.Text.{Text, ◌===◌, includes_text, has_unit, join, split_on}
use ise_endpoint_portal.Js.Text.Laws.{===_iff, ===_refl, includes_text-filter}
use ise_endpoint_portal.Js.Text.Count.{AreDistinct}
use ise_endpoint_portal.Js.Text.Split.{split_on-join, has_unit-join}
use ise_endpoint_portal.Tree.{Buckets, merge_sep}
use ise_endpoint_portal.Tree.Totals.{is_key}

-- no group has this member
abbrev pub AllAbsent : List (List Text) → Text → Type 0
AllAbsent gs m = All (λ g. includes_text g m ≡ false) gs

-- No value is in two groups.
abbrev pub AreDisjoint : List (List Text) → Type 0
AreDisjoint [] = Unit
AreDisjoint (g ∷ gs) = ((m : Text) → includes_text g m ≡ true → AllAbsent gs m) × AreDisjoint gs

-- No value is in a group twice, and none holds the separator.
abbrev pub IsGroup : List Text → Type 0
IsGroup g = AreDistinct g × All (λ m. has_unit merge_sep m ≡ false) g

-- The values that a key is merged of are not keys.
abbrev pub ApartFrom : Buckets → Type 0
ApartFrom bs =
    (k m : Text)
    → is_key k bs ≡ true
    → has_unit merge_sep k ≡ true
    → includes_text (split_on merge_sep k) m ≡ true
    → is_key m bs ≡ false

-- The order of `localeCompare` sorts: it keeps the elements and their number.
pub record IsSort (sort : List Text → List Text) : Type 0 where
  pub same_members : (xs : List Text) (x : Text) → includes_text (sort xs) x ≡ includes_text xs x
  pub same_length : (xs : List Text) → length (sort xs) ≡ length xs

pub filter-AreDistinct :
    (p : Text → Bool) (xs : List Text) → AreDistinct xs → AreDistinct (filter p xs)
filter-AreDistinct p [] h = tt
filter-AreDistinct p (x ∷ xs) (h, t) = elim (Bool-cases (p x)) [
  | inl e ↦ rw e (ground (arith, includes_text-filter p xs x, h), filter-AreDistinct p xs t)
  | inr e ↦ rw e (filter-AreDistinct p xs t)
]

pub filter-All : (p : Text → Bool) (xs : List Text) → All (λ x. p x ≡ true) (filter p xs)
filter-All p [] = tt
filter-All p (x ∷ xs) = elim (Bool-cases (p x)) [
  | inl e ↦ rw e (e, filter-All p xs)
  | inr e ↦ rw e (filter-All p xs)
]

pub All-of_includes :
    (sep : ℕ) (xs ys : List Text)
    → All (λ x. has_unit sep x ≡ false) ys
    → ((x : Text) → includes_text xs x ≡ true → includes_text ys x ≡ true)
    → All (λ x. has_unit sep x ≡ false) xs
unfolding includes_text
All-of_includes sep [] ys h k = tt
All-of_includes sep (x ∷ xs) ys h k = (
  of_includes ys h (k x (rw (===_refl x) refl)),
  All-of_includes sep xs ys h (λ z i. k z (rw i (ground arith))),
)
  where
    of_includes :
        (zs : List Text)
        → All (λ z. has_unit sep z ≡ false) zs
        → includes_text zs x ≡ true
        → has_unit sep x ≡ false
    of_includes [] l i = absurd (cc)
    of_includes (z ∷ zs) (l, t) i = elim (Bool-cases (z === x)) [
      | inl e ↦ ap (has_unit sep) (sym ((===_iff z x).0 e)) ∙ l
      | inr e ↦ of_includes zs t (ground arith)
    ]

-- Two pieces or more without the separator are found again in their key.
pub join_parts :
    (xs : List Text)
    → All (λ x. has_unit merge_sep x ≡ false) xs
    → ltb (length xs) 2 ≡ false
    → (split_on merge_sep (join (merge_sep ∷ []) xs) ≡ xs)
      × (has_unit merge_sep (join (merge_sep ∷ []) xs) ≡ true)
join_parts [] h l = ground arith
join_parts (x ∷ []) h l = ground arith
join_parts (x ∷ y ∷ xs) h l = (split_on-join merge_sep x (y ∷ xs) h, has_unit-join merge_sep x y xs)

-- a member of a list that is not empty
pub some_member :
    (xs : List Text) → ltb (length xs) 2 ≡ false → (x : Text) × (includes_text xs x ≡ true)
unfolding includes_text
some_member [] l = ground arith
some_member (x ∷ xs) l = (x, rw (===_refl x) refl)
