-- ===== src/Register/Mac/Canonical.antt =====
-- Addresses in the form that is sent.
use ise_endpoint_portal.Prelude.{
  ℕ, zero, suc, ◌≡◌, ◌<◌, refl, ap, ◌∙◌, true, false, ◌&&◌, [], ◌∷◌, map, length, ◌==◌, All, arith,
  length-map,
}
use ise_endpoint_portal.Js.Text.{Text, is_space, upper}
use ise_endpoint_portal.Csv.Mac.{is_hex, is_mac_separator, mac_pairs}
use ise_endpoint_portal.ImportPage.Sent.{is_upper_hex, canonical_pairs, &&-split}
use ise_endpoint_portal.Register.Mac.{hex_digits, with_colons}
use ise_endpoint_portal.Register.Mac.Digits.{
  hex_digits-cons, hex_digits-separator, length-hex_digits, with_colons-two, with_colons-more,
}

pub upper-of_upper_hex : (c : ℕ) → is_upper_hex c ≡ true → upper c ≡ c
unfolding upper
upper-of_upper_hex c h = ground (arith, h)

pub is_hex-of_upper_hex : (c : ℕ) → is_upper_hex c ≡ true → is_hex c ≡ true
unfolding is_hex
is_hex-of_upper_hex c h = ground (arith, h)

pub is_colon : (c : ℕ) → (c == b':') ≡ true → (upper c ≡ c) × (is_mac_separator c ≡ true)
unfolding upper
is_colon c h = ground (arith, h)

pub is_the_colon : (c : ℕ) → (c == b':') ≡ true → c ≡ b':'
is_the_colon c h = ground (arith, h)

pub upper_hex-visible : (c : ℕ) → is_upper_hex c ≡ true → is_space c ≡ false
unfolding is_space
upper_hex-visible c h = ground (arith, h)

pub colon-visible : (c : ℕ) → (c == b':') ≡ true → is_space c ≡ false
unfolding is_space
colon-visible c h = ground (arith, h)

pub hex_digits-nil : hex_digits [] ≡ []
unfolding hex_digits
hex_digits-nil = refl

pub hex_digits-two :
    (a b : ℕ) (s : Text)
    → is_upper_hex a ≡ true
    → is_upper_hex b ≡ true
    → hex_digits (a ∷ b ∷ s) ≡ a ∷ b ∷ hex_digits s
hex_digits-two a b s ha hb =
    rw
      (
        hex_digits-cons a (b ∷ s),
        hex_digits-cons b s,
        is_hex-of_upper_hex a ha,
        is_hex-of_upper_hex b hb,
      )
      refl

-- A canonical address is left as it is by upper case, and the pattern accepts it.
pub canonical-accepted :
    (n : ℕ) (s : Text) → canonical_pairs n s ≡ true → (map upper s ≡ s) × (mac_pairs n s ≡ true)
unfolding mac_pairs
canonical-accepted zero (a ∷ b ∷ []) h =
    let (ha, hb) = &&-split (is_upper_hex a) (is_upper_hex b) h in
    (
      rw (upper-of_upper_hex a ha, upper-of_upper_hex b hb) refl,
      rw (is_hex-of_upper_hex a ha, is_hex-of_upper_hex b hb) refl,
    )
canonical-accepted (suc n) (a ∷ b ∷ c ∷ s) h =
    let (front, t) =
      &&-split (is_upper_hex a && is_upper_hex b && c == b':') (canonical_pairs n s) h in
    let (hab, hc) = &&-split (is_upper_hex a && is_upper_hex b) (c == b':') front in
    let (ha, hb) = &&-split (is_upper_hex a) (is_upper_hex b) hab in
    let (rest, accepted) = canonical-accepted n s t in
    let (uc, sc) = is_colon c hc in
    (
      rw (upper-of_upper_hex a ha, upper-of_upper_hex b hb, uc, rest) refl,
      rw (is_hex-of_upper_hex a ha, is_hex-of_upper_hex b hb, sc, accepted) refl,
    )
canonical-accepted zero [] h = absurd (cc h)
canonical-accepted zero (a ∷ []) h = absurd (cc h)
canonical-accepted zero (a ∷ b ∷ c ∷ s) h = absurd (cc h)
canonical-accepted (suc n) [] h = absurd (cc h)
canonical-accepted (suc n) (a ∷ []) h = absurd (cc h)
canonical-accepted (suc n) (a ∷ b ∷ []) h = absurd (cc h)

pub with_colons-front :
    (a b : ℕ) (t : Text) → (1 < length t) → with_colons (a ∷ b ∷ t) ≡ a ∷ b ∷ b':' ∷ with_colons t
with_colons-front a b (c ∷ d ∷ s) h = with_colons-more a b c d s
with_colons-front a b [] h = absurd (omega (arith, h))
with_colons-front a b (c ∷ []) h = absurd (omega (arith, h))

pub with_colons-of_canonical :
    (n : ℕ) (s : Text) → canonical_pairs n s ≡ true → with_colons (map upper (hex_digits s)) ≡ s
with_colons-of_canonical zero (a ∷ b ∷ []) h =
    let (ha, hb) = &&-split (is_upper_hex a) (is_upper_hex b) h in
    ap (λ t. with_colons (map upper t)) (hex_digits-two a b [] ha hb)
    ∙ rw (upper-of_upper_hex a ha, upper-of_upper_hex b hb, hex_digits-nil) (with_colons-two a b)
with_colons-of_canonical (suc n) (a ∷ b ∷ c ∷ s) h =
    let (front, t) =
      &&-split (is_upper_hex a && is_upper_hex b && c == b':') (canonical_pairs n s) h in
    let (hab, hc) = &&-split (is_upper_hex a && is_upper_hex b) (c == b':') front in
    let (ha, hb) = &&-split (is_upper_hex a) (is_upper_hex b) hab in
    let k = length-hex_digits n s (canonical-accepted n s t).1 in
    let e = length-map upper (hex_digits s) in
    ap (λ x. with_colons (map upper x))
      (hex_digits-two a b (c ∷ s) ha hb
        ∙ ap (λ x. a ∷ b ∷ x) (hex_digits-separator c s (is_colon c hc).1))
    ∙ rw
        (
          upper-of_upper_hex a ha,
          upper-of_upper_hex b hb,
          with_colons-front a b (map upper (hex_digits s)) (omega (arith, k, e)),
          with_colons-of_canonical n s t,
          is_the_colon c hc,
        )
        refl
with_colons-of_canonical zero [] h = absurd (cc h)
with_colons-of_canonical zero (a ∷ []) h = absurd (cc h)
with_colons-of_canonical zero (a ∷ b ∷ c ∷ s) h = absurd (cc h)
with_colons-of_canonical (suc n) [] h = absurd (cc h)
with_colons-of_canonical (suc n) (a ∷ []) h = absurd (cc h)
with_colons-of_canonical (suc n) (a ∷ b ∷ []) h = absurd (cc h)

pub visible-of_canonical :
    (n : ℕ) (s : Text) → canonical_pairs n s ≡ true → All (λ c. is_space c ≡ false) s
visible-of_canonical zero (a ∷ b ∷ []) h =
    let (ha, hb) = &&-split (is_upper_hex a) (is_upper_hex b) h in
    (upper_hex-visible a ha, (upper_hex-visible b hb, tt))
visible-of_canonical (suc n) (a ∷ b ∷ c ∷ s) h =
    let (front, t) =
      &&-split (is_upper_hex a && is_upper_hex b && c == b':') (canonical_pairs n s) h in
    let (hab, hc) = &&-split (is_upper_hex a && is_upper_hex b) (c == b':') front in
    let (ha, hb) = &&-split (is_upper_hex a) (is_upper_hex b) hab in
    (
      upper_hex-visible a ha,
      (upper_hex-visible b hb, (colon-visible c hc, visible-of_canonical n s t)),
    )
visible-of_canonical zero [] h = absurd (cc h)
visible-of_canonical zero (a ∷ []) h = absurd (cc h)
visible-of_canonical zero (a ∷ b ∷ c ∷ s) h = absurd (cc h)
visible-of_canonical (suc n) [] h = absurd (cc h)
visible-of_canonical (suc n) (a ∷ []) h = absurd (cc h)
visible-of_canonical (suc n) (a ∷ b ∷ []) h = absurd (cc h)
