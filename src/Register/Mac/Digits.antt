-- ===== src/Register/Mac/Digits.antt =====
-- Texts of hexadecimal digits.
use ise_endpoint_portal.Prelude.{
  ℕ, zero, suc, ◌+◌, ◌≡◌, refl, ap, ◌∙◌, inl, inr, true, false, ◌&&◌, [], ◌∷◌, if◌then◌else◌, map,
  length, All, arith, Bool-cases,
}
use ise_endpoint_portal.Js.Text.{Text, join, trim, is_space, upper}
use ise_endpoint_portal.Js.Text.Trim.{filter-trim}
use ise_endpoint_portal.Csv.Mac.{is_hex, is_mac_separator, mac_pairs}
use ise_endpoint_portal.ImportPage.Sent.{is_upper_hex, canonical_pairs, &&-split}
use ise_endpoint_portal.Register.Mac.{hex_digits, pairs, with_colons}

pub is_hex-of_space : (c : ℕ) → is_space c ≡ true → is_hex c ≡ false
unfolding is_space is_hex
is_hex-of_space c h = ground (arith, h)

pub hex_digits-cons :
    (c : ℕ) (s : Text) → hex_digits (c ∷ s) ≡ (if is_hex c then c ∷ hex_digits s else hex_digits s)
unfolding hex_digits
hex_digits-cons c s = refl

pub hex_digits-trim : (s : Text) → hex_digits (trim s) ≡ hex_digits s
unfolding hex_digits
hex_digits-trim s = filter-trim is_hex is_hex-of_space s

pub is_hex-upper : (c : ℕ) → is_hex (upper c) ≡ is_hex c
unfolding is_hex upper
is_hex-upper c = ground arith

pub length-hex_digits-upper : (s : Text) → length (hex_digits (map upper s)) ≡ length (hex_digits s)
length-hex_digits-upper [] = refl
length-hex_digits-upper (c ∷ s) =
    rw (hex_digits-cons (upper c) (map upper s), hex_digits-cons c s, is_hex-upper c)
      (elim (Bool-cases (is_hex c)) [
        | inl e ↦ rw e (ap suc (length-hex_digits-upper s))
        | inr e ↦ rw e (length-hex_digits-upper s)
      ])

pub is_hex-of_separator : (c : ℕ) → is_mac_separator c ≡ true → is_hex c ≡ false
unfolding is_hex
is_hex-of_separator c h = ground (arith, h)

pub length-hex_digits-two :
    (a b : ℕ) (s : Text)
    → is_hex a ≡ true
    → is_hex b ≡ true
    → length (hex_digits (a ∷ b ∷ s)) ≡ suc (suc (length (hex_digits s)))
length-hex_digits-two a b s ha hb = rw (hex_digits-cons a (b ∷ s), hex_digits-cons b s, ha, hb) refl

pub hex_digits-separator :
    (c : ℕ) (s : Text) → is_mac_separator c ≡ true → hex_digits (c ∷ s) ≡ hex_digits s
hex_digits-separator c s h = hex_digits-cons c s ∙ rw (is_hex-of_separator c h) refl

pub length-hex_digits :
    (n : ℕ) (s : Text) → mac_pairs n s ≡ true → length (hex_digits s) ≡ n + n + 2
unfolding mac_pairs
length-hex_digits zero (a ∷ b ∷ []) h =
    let (ha, hb) = &&-split (is_hex a) (is_hex b) h in
    length-hex_digits-two a b [] ha hb ∙ ap suc (ap suc length-nil)
  where
    length-nil : length (hex_digits []) ≡ 0
    length-nil = unfold hex_digits in refl
length-hex_digits zero [] h = absurd (cc h)
length-hex_digits zero (a ∷ []) h = absurd (cc h)
length-hex_digits zero (a ∷ b ∷ c ∷ s) h = absurd (cc h)
length-hex_digits (suc n) (a ∷ b ∷ c ∷ s) h =
    let (front, t) = &&-split (is_hex a && is_hex b && is_mac_separator c) (mac_pairs n s) h in
    let (hab, hc) = &&-split (is_hex a && is_hex b) (is_mac_separator c) front in
    let (ha, hb) = &&-split (is_hex a) (is_hex b) hab in
    length-hex_digits-two a b (c ∷ s) ha hb
    ∙ ap (λ x. suc (suc (length x))) (hex_digits-separator c s hc)
    ∙ omega (arith, length-hex_digits n s t)
length-hex_digits (suc n) [] h = absurd (cc h)
length-hex_digits (suc n) (a ∷ []) h = absurd (cc h)
length-hex_digits (suc n) (a ∷ b ∷ []) h = absurd (cc h)

-- digits in upper case
abbrev pub IsUpperHex : Text → Type 0
IsUpperHex s = All (λ c. is_upper_hex c ≡ true) s

pub is_upper_hex-upper : (c : ℕ) → is_hex c ≡ true → is_upper_hex (upper c) ≡ true
unfolding is_hex upper
is_upper_hex-upper c h = ground (arith, h)

pub hex_digits-IsUpperHex : (s : Text) → IsUpperHex (map upper (hex_digits s))
unfolding hex_digits
hex_digits-IsUpperHex [] = tt
hex_digits-IsUpperHex (c ∷ s) = elim (Bool-cases (is_hex c)) [
  | inl e ↦ rw e (is_upper_hex-upper c e, hex_digits-IsUpperHex s)
  | inr e ↦ rw e (hex_digits-IsUpperHex s)
]

pub with_colons-two : (a b : ℕ) → with_colons (a ∷ b ∷ []) ≡ a ∷ b ∷ []
unfolding with_colons pairs join
with_colons-two a b = refl

pub with_colons-more :
    (a b c d : ℕ) (s : Text)
    → with_colons (a ∷ b ∷ c ∷ d ∷ s) ≡ a ∷ b ∷ b':' ∷ with_colons (c ∷ d ∷ s)
unfolding with_colons pairs join
with_colons-more a b c d s = refl

pub with_colons-canonical :
    (n : ℕ) (hex : Text)
    → IsUpperHex hex
    → length hex ≡ n + n + 2
    → canonical_pairs n (with_colons hex) ≡ true
with_colons-canonical zero (a ∷ b ∷ []) (ha, (hb, h)) e = rw (with_colons-two a b, ha, hb) refl
with_colons-canonical (suc n) (a ∷ b ∷ c ∷ d ∷ s) (ha, (hb, h)) e =
    rw (with_colons-more a b c d s, ha, hb)
      (with_colons-canonical n (c ∷ d ∷ s) h (omega (arith, e)))
with_colons-canonical zero [] h e = absurd (omega (arith, e))
with_colons-canonical zero (a ∷ []) h e = absurd (omega (arith, e))
with_colons-canonical zero (a ∷ b ∷ c ∷ s) h e = absurd (omega (arith, e))
with_colons-canonical (suc n) [] h e = absurd (omega (arith, e))
with_colons-canonical (suc n) (a ∷ []) h e = absurd (omega (arith, e))
with_colons-canonical (suc n) (a ∷ b ∷ []) h e = absurd (omega (arith, e))
with_colons-canonical (suc n) (a ∷ b ∷ c ∷ []) h e = absurd (omega (arith, e))
