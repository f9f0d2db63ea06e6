-- ===== src/Browse/Texts/Laws.antt =====
-- Normal forms of addresses, safety of escaped text, paths of groups, and the ranges of ages.
use mathlib.Core.Path.{subst}
use ise_endpoint_portal.Prelude.{
  All-map, ◌&&◌, ℕ, ◌-◌, ◌/◌, ◌≤◌, ◌<◌, ◌≡◌, refl, sym, ap, ◌∙◌, inl, inr, Bool, true, false, ◌||◌,
  List, [], ◌∷◌, ◌++◌, Option, some, filter, drop, length, ◌==◌, ==_iff, ltb, arith, Bool-cases,
  All,
}
use ise_endpoint_portal.Js.Text.{
  Text, codes, truthy, or_empty, trim, upper, to_upper_case, has_unit, split_on, replace_all, join,
}
use ise_endpoint_portal.Js.Text.Laws.{
  trim_idem, to_upper_case_idem, has_unit-append, replace_all-of_not_has, starts_with-append,
}
use ise_endpoint_portal.Js.Text.Trim.{trim-to_upper_case, trim-has_no}
use ise_endpoint_portal.Js.Text.Split.{split_on-join}
use ise_endpoint_portal.Browse.Texts.{
  normalize_mac, esc_unit, esc_units, esc, eig_prefix, group_rest, group_path_parts, Date, at, Age,
  age_of_days, fmt_relative_age, days, months, years, missing, invalid,
}

replace-has_no_dash : (s : Text) → has_unit b'-' (replace_all b'-' (b':' ∷ []) s) ≡ false
unfolding replace_all has_unit
replace-has_no_dash [] = refl
replace-has_no_dash (c ∷ s) = ground (arith, replace-has_no_dash s)

upper-has_no_dash : (s : Text) → has_unit b'-' (to_upper_case s) ≡ has_unit b'-' s
unfolding to_upper_case has_unit upper
upper-has_no_dash [] = refl
upper-has_no_dash (c ∷ s) = ground (arith, upper-has_no_dash s)

normalize_mac-has_no_dash : (s : Option Text) → has_unit b'-' (normalize_mac s) ≡ false
unfolding normalize_mac
normalize_mac-has_no_dash s =
    upper-has_no_dash _ ∙ trim-has_no b'-' _ (replace-has_no_dash (or_empty s))

normal-normalize_mac : (s : Option Text) → to_upper_case (trim (normalize_mac s)) ≡ normalize_mac s
unfolding normalize_mac
normal-normalize_mac s = rw (trim-to_upper_case, trim_idem) (to_upper_case_idem _)

normalize_mac_lem :
    (s : Text) → has_unit b'-' s ≡ false → normalize_mac (some s) ≡ to_upper_case (trim s)
unfolding normalize_mac
normalize_mac_lem s h =
    ap (λ x. to_upper_case (trim x)) (replace_all-of_not_has b'-' (b':' ∷ []) s h)

-- The normal form of an address, whatever was typed, is its own normal form, and no dash is left
-- in it.
normalize_mac_idem :
    (s : Option Text)
    → (normalize_mac (some (normalize_mac s)) ≡ normalize_mac s)
      × (has_unit b'-' (normalize_mac s) ≡ false)
normalize_mac_idem s = (
  normalize_mac_lem (normalize_mac s) (normalize_mac-has_no_dash s) ∙ normal-normalize_mac s,
  normalize_mac-has_no_dash s,
)

-- the units that delimit tags and attribute values
abbrev pub is_markup : ℕ → Bool
is_markup c = c == b'<' || c == b'>' || c == b'"' || c == b'\''

-- What HTML reads from a text: each of the five entities as its unit, any other unit but `&` as
-- itself.
pub data Reads : Text → Text → Type 0 where
  end : Reads [] []
  plain : (c : ℕ) {e s : Text} → (c == b'&') ≡ false → Reads e s → Reads (c ∷ e) (c ∷ s)
  amp : {e s : Text} → Reads e s → Reads (codes "&amp;" ++ e) (b'&' ∷ s)
  lt : {e s : Text} → Reads e s → Reads (codes "&lt;" ++ e) (b'<' ∷ s)
  gt : {e s : Text} → Reads e s → Reads (codes "&gt;" ++ e) (b'>' ∷ s)
  quot : {e s : Text} → Reads e s → Reads (codes "&quot;" ++ e) (b'"' ∷ s)
  apos : {e s : Text} → Reads e s → Reads (codes "&#39;" ++ e) (b'\'' ∷ s)

esc_unit-has_no : (d c : ℕ) → is_markup d ≡ true → has_unit d (esc_unit c) ≡ false
unfolding esc_unit has_unit
esc_unit-has_no d c h = ground arith

esc_units-has_no : (d : ℕ) (s : Text) → is_markup d ≡ true → has_unit d (esc_units s) ≡ false
esc_units-has_no d [] h = unfold has_unit in refl
esc_units-has_no d (c ∷ s) h = rw (has_unit-append, esc_unit-has_no d c h) (esc_units-has_no d s h)

esc_unit-Reads : (c : ℕ) {e s : Text} → Reads e s → Reads (esc_unit c ++ e) (c ∷ s)
unfolding esc_unit
esc_unit-Reads c {e} {s} r = elim (Bool-cases (c == b'&')) [
  | inl h ↦ subst (λ x. Reads (esc_unit x ++ e) (x ∷ s)) (sym ((==_iff c b'&').0 h)) (amp r)
  | inr h ↦ elim (Bool-cases (c == b'<')) [
    | inl i ↦ subst (λ x. Reads (esc_unit x ++ e) (x ∷ s)) (sym ((==_iff c b'<').0 i)) (lt r)
    | inr i ↦ elim (Bool-cases (c == b'>')) [
      | inl j ↦ subst (λ x. Reads (esc_unit x ++ e) (x ∷ s)) (sym ((==_iff c b'>').0 j)) (gt r)
      | inr j ↦ elim (Bool-cases (c == b'"')) [
        | inl k ↦ subst (λ x. Reads (esc_unit x ++ e) (x ∷ s)) (sym ((==_iff c b'"').0 k)) (quot r)
        | inr k ↦ elim (Bool-cases (c == b'\'')) [
          | inl l ↦
              subst (λ x. Reads (esc_unit x ++ e) (x ∷ s)) (sym ((==_iff c b'\'').0 l)) (apos r)
          | inr l ↦ rw (h, i, j, k, l) (plain c h r)
        ]
      ]
    ]
  ]
]

esc_units-Reads : (s : Text) → Reads (esc_units s) s
esc_units-Reads [] = end
esc_units-Reads (c ∷ s) = esc_unit-Reads c (esc_units-Reads s)

-- HTML reads an escaped text as the text itself, and no unit in it opens or ends a tag or a quoted
-- attribute value.
pub esc-Reads :
    (s : Text)
    → Reads (esc (some s)) s × ((d : ℕ) → (is_markup d && has_unit d (esc (some s))) ≡ false)
unfolding esc
esc-Reads s = (esc_units-Reads s, λ d. ground (arith, esc_units-has_no d s))

-- a name that can stand between colons
abbrev pub IsPart : Text → Type 0
IsPart s = (truthy s ≡ true) × (has_unit b':' s ≡ false)

filter-truthy : (parts : List Text) → All IsPart parts → filter truthy parts ≡ parts
filter-truthy [] h = refl
filter-truthy (s ∷ parts) (h, t) = rw h.0 (ap (◌∷◌ s) (filter-truthy parts t))

drop-append : (a b : Text) → drop (length a) (a ++ b) ≡ b
drop-append [] b = refl
drop-append (c ∷ a) b = drop-append a b

group_rest-prefix : (s : Text) → group_rest (eig_prefix ++ s) ≡ s
group_rest-prefix s = rw (starts_with-append eig_prefix s) (drop-append eig_prefix s)

-- The path of a group whose full name is built of names that are not empty and hold no colon is
-- those names.
group_path_parts-join :
    (s : Text) (parts : List Text)
    → All IsPart (s ∷ parts)
    → group_path_parts (some (eig_prefix ++ join (b':' ∷ []) (s ∷ parts))) ≡ s ∷ parts
unfolding group_path_parts
group_path_parts-join s parts h =
    ap (λ x. filter truthy (split_on b':' x)) (group_rest-prefix (join (b':' ∷ []) (s ∷ parts)))
    ∙ ap (filter truthy) (split_on-join b':' s parts (All-map IsPart _ (λ x k. k.1) (s ∷ parts) h))
    ∙ filter-truthy (s ∷ parts) h

-- The number that stands with a unit is in the range of that unit.
abbrev pub InRange : Age → Type 0
InRange (days n) = (2 ≤ n) × (n < 30)
InRange (months n) = (1 ≤ n) × (n ≤ 12)
InRange (years n) = 1 ≤ n
InRange _ = Unit

age_of_days-InRange : (n : ℕ) → InRange (age_of_days n)
age_of_days-InRange n = elim (Bool-cases (ltb n 1)) [
  | inl e ↦ rw e tt
  | inr e ↦ elim (Bool-cases (n == 1)) [
    | inl f ↦ rw (e, f) tt
    | inr f ↦ elim (Bool-cases (ltb n 30)) [
      | inl g ↦ rw (e, f, g) (ground arith, ground arith)
      | inr g ↦ elim (Bool-cases (ltb n 365)) [
        | inl h ↦ rw (e, f, g, h) (ground arith, ground arith)
        | inr h ↦ rw (e, f, g, h) (ground arith)
      ]
    ]
  ]
]

-- An age in days is 2 to 29, one in months 1 to 12, and one in years at least 1, whatever the date.
fmt_relative_age-InRange : (now : ℕ) (d : Date) → InRange (fmt_relative_age now d)
unfolding fmt_relative_age
fmt_relative_age-InRange now (at t) = age_of_days-InRange ((now - t) / 86400000)
fmt_relative_age-InRange now missing = tt
fmt_relative_age-InRange now invalid = tt
