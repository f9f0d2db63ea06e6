-- ===== src/Js/Text/Laws.antt =====
-- Laws of the string methods.
use ise_endpoint_portal.Prelude.{
  all, Bool, List, ◌&&◌, filter, ap, ℕ, ◌≡◌, refl, ◌↔◌, inl, inr, true, false, ◌||◌, [], ◌∷◌, ◌++◌,
  arith, Bool-cases,
}
use ise_endpoint_portal.Js.Text.{
  includes_text, Text, ◌===◌, is_space, trim_start, trim_cons, trim_end, trim, lower, upper,
  to_upper_case, has_unit, replace_all, truthy, starts_with,
}

pub ===_iff : (a b : Text) → ((a === b) ≡ true) ↔ (a ≡ b)
unfolding ◌===◌
===_iff [] [] = ground arith
===_iff [] (y ∷ ys) = ground arith
===_iff (x ∷ xs) [] = ground arith
===_iff (x ∷ xs) (y ∷ ys) = ground (arith, ===_iff xs ys)

pub ===_comm : (a b : Text) → (a === b) ≡ (b === a)
unfolding ◌===◌
===_comm [] [] = refl
===_comm [] (y ∷ ys) = refl
===_comm (x ∷ xs) [] = refl
===_comm (x ∷ xs) (y ∷ ys) = ground (arith, ===_comm xs ys)

pub ===_refl : (a : Text) → (a === a) ≡ true
===_refl a = (===_iff a a).1 refl

pub trim_cons-trim_cons :
    (c : ℕ) (s : Text) → trim_end s ≡ s → trim_end (trim_cons c s) ≡ trim_cons c s
unfolding trim_cons trim_end
trim_cons-trim_cons c [] h = ground arith
trim_cons-trim_cons c (d ∷ s) h = rw h

trim_end_idem : (s : Text) → trim_end (trim_end s) ≡ trim_end s
unfolding trim_end
trim_end_idem [] = refl
trim_end_idem (c ∷ s) = trim_cons-trim_cons c (trim_end s) (trim_end_idem s)

-- A text does not begin with white space.
abbrev Starts : Text → Type 0
Starts [] = Unit
Starts (c ∷ s) = is_space c ≡ false

trim_start-Starts : (s : Text) → Starts (trim_start s)
unfolding trim_start
trim_start-Starts [] = tt
trim_start-Starts (c ∷ s) = elim (Bool-cases (is_space c)) [
  | inl e ↦ rw e (trim_start-Starts s)
  | inr e ↦ rw e e
]

trim_start-of_Starts : (s : Text) → Starts s → trim_start s ≡ s
unfolding trim_start
trim_start-of_Starts [] h = refl
trim_start-of_Starts (c ∷ s) h = rw h

trim_end-Starts : (s : Text) → Starts s → Starts (trim_end s)
unfolding trim_end trim_cons
trim_end-Starts [] h = tt
trim_end-Starts (c ∷ s) h = trim_cons-Starts (trim_end s)
  where
    trim_cons-Starts : (r : Text) → Starts (trim_cons c r)
    trim_cons-Starts [] = rw h h
    trim_cons-Starts (d ∷ r) = h

pub trim_idem : (s : Text) → trim (trim s) ≡ trim s
unfolding trim trim_start trim_end trim_cons
trim_idem s =
    rw
      (trim_start-of_Starts (trim_end (trim_start s))
        (trim_end-Starts (trim_start s) (trim_start-Starts s)))
      (trim_end_idem (trim_start s))

pub trim_nil : trim [] ≡ []
unfolding trim
trim_nil = refl

pub lower_idem : (c : ℕ) → lower (lower c) ≡ lower c
unfolding lower
lower_idem c = ground arith

pub upper_idem : (c : ℕ) → upper (upper c) ≡ upper c
unfolding upper
upper_idem c = ground arith

pub to_upper_case_idem : (s : Text) → to_upper_case (to_upper_case s) ≡ to_upper_case s
unfolding to_upper_case
to_upper_case_idem [] = refl
to_upper_case_idem (c ∷ s) = cc (upper_idem c, to_upper_case_idem s)

pub has_unit-append : (c : ℕ) (a b : Text) → has_unit c (a ++ b) ≡ (has_unit c a || has_unit c b)
unfolding has_unit
has_unit-append c [] b = refl
has_unit-append c (x ∷ a) b = ground (arith, has_unit-append c a b)

-- Replacing a unit that does not occur changes nothing.
pub replace_all-of_not_has : (c : ℕ) (d s : Text) → has_unit c s ≡ false → replace_all c d s ≡ s
unfolding replace_all has_unit
replace_all-of_not_has c d [] h = refl
replace_all-of_not_has c d (x ∷ s) h = ground (arith, replace_all-of_not_has c d s)

-- A text that begins with a visible unit is not blank.
pub truthy-trim : (c : ℕ) (s : Text) → is_space c ≡ false → truthy (trim (c ∷ s)) ≡ true
unfolding trim trim_start trim_end trim_cons
truthy-trim c s h = rw (h, trim_start) (truthy-trim_cons (trim_end s))
  where
    truthy-trim_cons : (r : Text) → truthy (trim_cons c r) ≡ true
    truthy-trim_cons [] = rw (h, trim_cons)
    truthy-trim_cons (d ∷ r) = refl

pub starts_with-append : (p s : Text) → starts_with (p ++ s) p ≡ true
unfolding starts_with
starts_with-append [] [] = refl
starts_with-append [] (c ∷ s) = refl
starts_with-append (c ∷ p) s = ground (arith, starts_with-append p s)

-- What an array holds that was joined, or filtered.
pub includes_text-append :
    (xs ys : List Text) (c : Text)
    → includes_text (xs ++ ys) c ≡ (includes_text xs c || includes_text ys c)
unfolding includes_text
includes_text-append [] ys c = refl
includes_text-append (x ∷ xs) ys c = ground (arith, includes_text-append xs ys c)

pub includes_text-filter :
    (p : Text → Bool) (xs : List Text) (c : Text)
    → includes_text (filter p xs) c ≡ (p c && includes_text xs c)
unfolding includes_text
includes_text-filter p [] c = ground arith
includes_text-filter p (x ∷ xs) c = elim (Bool-cases (x === c)) [
  | inl e ↦ ground (arith, includes_text-filter p xs c, ap p ((===_iff x c).0 e))
  | inr e ↦ ground (arith, includes_text-filter p xs c)
]

pub ===_nil_nil : ([] === []) ≡ true
unfolding ◌===◌
===_nil_nil = refl

pub ===_nil_cons : (c : ℕ) (s : Text) → ([] === (c ∷ s)) ≡ false
unfolding ◌===◌
===_nil_cons c s = refl

-- A list of texts that are not empty does not hold the empty text.
pub not-includes_text-nil : (ks : List Text) → all truthy ks ≡ true → includes_text ks [] ≡ true → ⊥
unfolding includes_text ◌===◌
not-includes_text-nil [] h e = cc
not-includes_text-nil ([] ∷ ks) h e = cc
not-includes_text-nil ((c ∷ k) ∷ ks) h e = not-includes_text-nil ks h e
