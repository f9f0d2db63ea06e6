-- ===== src/Js/Text/Trim.antt =====
-- Trimming against letter case and occurrences.
use ise_endpoint_portal.Prelude.{
  All, ℕ, ◌≡◌, refl, inl, inr, false, [], ◌∷◌, ◌==◌, arith, Bool-cases, map, filter, Bool, true,
  sym, ◌∙◌, ap, if◌then◌else◌,
}
use ise_endpoint_portal.Js.Text.{
  Text, trim, trim_start, trim_end, trim_cons, is_space, upper, to_upper_case, has_unit,
}

-- Letter case makes no white space, so trimming and upper case commute.
is_space-upper : (c : ℕ) → is_space (upper c) ≡ is_space c
unfolding is_space upper
is_space-upper c = ground arith

trim_cons-upper : (c : ℕ) (s : Text) → trim_cons (upper c) (map upper s) ≡ map upper (trim_cons c s)
unfolding trim_cons
trim_cons-upper c [] =
    rw (is_space-upper c) (elim (Bool-cases (is_space c)) [ inl e ↦ rw e | inr e ↦ rw e ])
trim_cons-upper c (d ∷ s) = refl

trim_end-upper : (s : Text) → trim_end (map upper s) ≡ map upper (trim_end s)
unfolding trim_end
trim_end-upper [] = refl
trim_end-upper (c ∷ s) = rw (trim_end-upper s) (trim_cons-upper c (trim_end s))

trim_start-upper : (s : Text) → trim_start (map upper s) ≡ map upper (trim_start s)
unfolding trim_start
trim_start-upper [] = refl
trim_start-upper (c ∷ s) =
    rw (is_space-upper c, trim_start-upper s)
      (elim (Bool-cases (is_space c)) [ inl e ↦ rw e | inr e ↦ rw e ])

pub trim-to_upper_case : (s : Text) → trim (to_upper_case s) ≡ to_upper_case (trim s)
unfolding trim to_upper_case
trim-to_upper_case s = rw (trim_start-upper s) (trim_end-upper (trim_start s))

-- Trimming adds no unit.
trim_start-has_no : (d : ℕ) (s : Text) → has_unit d s ≡ false → has_unit d (trim_start s) ≡ false
unfolding trim_start has_unit
trim_start-has_no d [] h = refl
trim_start-has_no d (c ∷ s) h = elim (Bool-cases (is_space c)) [
  | inl e ↦ rw e (trim_start-has_no d s (ground arith))
  | inr e ↦ rw e h
]

trim_cons-has_no :
    (d c : ℕ) (s : Text)
    → (c == d) ≡ false
    → has_unit d s ≡ false
    → has_unit d (trim_cons c s) ≡ false
unfolding trim_cons has_unit
trim_cons-has_no d c [] h k = ground arith
trim_cons-has_no d c (e ∷ s) h k = ground arith

trim_end-has_no : (d : ℕ) (s : Text) → has_unit d s ≡ false → has_unit d (trim_end s) ≡ false
unfolding trim_end has_unit
trim_end-has_no d [] h = refl
trim_end-has_no d (c ∷ s) h =
    trim_cons-has_no d c (trim_end s) (ground arith) (trim_end-has_no d s (ground arith))

pub trim-has_no : (d : ℕ) (s : Text) → has_unit d s ≡ false → has_unit d (trim s) ≡ false
unfolding trim
trim-has_no d s h = trim_end-has_no d (trim_start s) (trim_start-has_no d s h)

trim_cons-of_visible : (c : ℕ) (s : Text) → is_space c ≡ false → trim_cons c s ≡ c ∷ s
unfolding trim_cons
trim_cons-of_visible c [] h = rw h
trim_cons-of_visible c (d ∷ s) h = refl

trim_end-of_visible : (s : Text) → All (λ c. is_space c ≡ false) s → trim_end s ≡ s
unfolding trim_end
trim_end-of_visible [] h = refl
trim_end-of_visible (c ∷ s) (h, t) = rw (trim_end-of_visible s t) (trim_cons-of_visible c s h)

-- A text without white space is its own trimmed form.
pub trim-of_visible : (s : Text) → All (λ c. is_space c ≡ false) s → trim s ≡ s
unfolding trim trim_start
trim-of_visible [] h = trim_end-of_visible [] h
trim-of_visible (c ∷ s) h = rw h.0 (trim_end-of_visible (c ∷ s) h)

-- Trimming takes out nothing that a test keeps, if the test keeps no white space.
module _ (p : ℕ → Bool) (visible : (c : ℕ) → is_space c ≡ true → p c ≡ false) where
  filter-space : (c : ℕ) (s : Text) → is_space c ≡ true → filter p (c ∷ s) ≡ filter p s
  filter-space c s h = rw (visible c h) refl

  filter-trim_start : (s : Text) → filter p (trim_start s) ≡ filter p s
  unfolding trim_start
  filter-trim_start [] = refl
  filter-trim_start (c ∷ s) = elim (Bool-cases (is_space c)) [
    | inl e ↦ rw e (filter-trim_start s ∙ sym (filter-space c s e))
    | inr e ↦ rw e refl
  ]

  filter-trim_cons : (c : ℕ) (s : Text) → filter p (trim_cons c s) ≡ filter p (c ∷ s)
  unfolding trim_cons
  filter-trim_cons c [] = elim (Bool-cases (is_space c)) [
    | inl e ↦ rw e (sym (filter-space c [] e))
    | inr e ↦ rw e refl
  ]
  filter-trim_cons c (d ∷ s) = refl

  filter-trim_end : (s : Text) → filter p (trim_end s) ≡ filter p s
  unfolding trim_end
  filter-trim_end [] = refl
  filter-trim_end (c ∷ s) =
      filter-trim_cons c (trim_end s) ∙ ap (λ t. if p c then c ∷ t else t) (filter-trim_end s)

  pub filter-trim : (s : Text) → filter p (trim s) ≡ filter p s
  unfolding trim
  filter-trim s = filter-trim_end (trim_start s) ∙ filter-trim_start s
