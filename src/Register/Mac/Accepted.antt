-- ===== src/Register/Mac/Accepted.antt =====
-- The addresses that the page accepts and sends.
use ise_endpoint_portal.Prelude.{
  ◌≡◌, refl, sym, ap, ◌∙◌, inl, inr, Bool, true, false, ◌⊎◌, if◌then◌else◌, map, length, ◌==◌,
  arith, Bool-cases, length-map,
}
use ise_endpoint_portal.Js.Text.{Text, trim, upper, to_upper_case}
use ise_endpoint_portal.Js.Text.Trim.{trim-of_visible}
use ise_endpoint_portal.Csv.Mac.{mac_pairs, mac_re}
use ise_endpoint_portal.ImportPage.Sent.{is_canonical_mac}
use ise_endpoint_portal.Register.Mac.{hex_digits, with_colons, normalise_mac, submitted_mac}
use ise_endpoint_portal.Register.Mac.Digits.{
  hex_digits-trim, length-hex_digits-upper, length-hex_digits, hex_digits-IsUpperHex,
  with_colons-canonical,
}
use ise_endpoint_portal.Register.Mac.Canonical.{
  canonical-accepted, with_colons-of_canonical, visible-of_canonical,
}

normalise_mac-if :
    (raw : Text)
    → normalise_mac raw ≡ (
        if length (map upper (hex_digits raw)) == 12
        then with_colons (map upper (hex_digits raw))
        else raw)
unfolding normalise_mac to_upper_case
normalise_mac-if raw = refl

-- twelve digits among other units give an address
pub normalise_mac-of_twelve :
    (raw : Text)
    → (length (hex_digits raw) == 12) ≡ true
    → (normalise_mac raw ≡ with_colons (map upper (hex_digits raw)))
      × (is_canonical_mac (with_colons (map upper (hex_digits raw))) ≡ true)
normalise_mac-of_twelve raw h =
    let e = length-map upper (hex_digits raw) in
    (
      normalise_mac-if raw ∙ rw (e, h) refl,
      with_colons-canonical 5 (map upper (hex_digits raw)) (hex_digits-IsUpperHex raw)
          (ground (arith, e, h)),
    )

normalise_mac-otherwise :
    (raw : Text) → (length (hex_digits raw) == 12) ≡ false → normalise_mac raw ≡ raw
normalise_mac-otherwise raw h =
    normalise_mac-if raw ∙ rw (length-map upper (hex_digits raw), h) refl

pub submitted_mac-upper : (v : Text) → submitted_mac v ≡ map upper (normalise_mac (trim v))
unfolding submitted_mac to_upper_case
submitted_mac-upper v = refl

pub mac_re-pairs : (s : Text) → mac_re s ≡ mac_pairs 5 s
unfolding mac_re
mac_re-pairs s = refl

twelve-trim :
    (v : Text) (b : Bool)
    → (length (hex_digits v) == 12) ≡ b
    → (length (hex_digits (trim v)) == 12) ≡ b
twelve-trim v b h = rw (hex_digits-trim v) h

submitted_mac-of_twelve :
    (v : Text)
    → (length (hex_digits v) == 12) ≡ true
    → (mac_re (submitted_mac v) ≡ true) × (is_canonical_mac (submitted_mac v) ≡ true)
submitted_mac-of_twelve v h =
    let (e, c) = normalise_mac-of_twelve (trim v) (twelve-trim v true h) in
    let (same, accepted) = canonical-accepted 5 (with_colons (map upper (hex_digits (trim v)))) c in
    let sent = submitted_mac-upper v ∙ ap (map upper) e ∙ same in
    (ap mac_re sent ∙ mac_re-pairs _ ∙ accepted, ap is_canonical_mac sent ∙ c)

-- a canonical address is sent as it is typed
pub submitted_mac-of_canonical : (v : Text) → is_canonical_mac v ≡ true → submitted_mac v ≡ v
submitted_mac-of_canonical v h =
    let (same, accepted) = canonical-accepted 5 v h in
    let k = length-hex_digits 5 v accepted in
    let (e, c) = normalise_mac-of_twelve v (ground (arith, k)) in
    submitted_mac-upper v
    ∙ ap (λ t. map upper (normalise_mac t)) (trim-of_visible v (visible-of_canonical 5 v h))
    ∙ ap (map upper) (e ∙ with_colons-of_canonical 5 v h)
    ∙ same

submitted_mac-otherwise :
    (v : Text) → (length (hex_digits v) == 12) ≡ false → mac_re (submitted_mac v) ≡ false
submitted_mac-otherwise v h = elim (Bool-cases (mac_re (submitted_mac v))) [
  | inr e ↦ e
  | inl e ↦
      let sent =
        submitted_mac-upper v
        ∙ ap (map upper) (normalise_mac-otherwise (trim v) (twelve-trim v false h)) in
      let k =
        length-hex_digits 5 (map upper (trim v))
          (sym (ap mac_re sent ∙ mac_re-pairs (map upper (trim v))) ∙ e) in
      absurd (ground (arith, h, k, length-hex_digits-upper (trim v), ap length (hex_digits-trim v)))
]

-- The address field is accepted exactly if it holds twelve hexadecimal digits, whatever stands between
-- and around them, and the address that is then sent is six pairs of upper-case digits with colons
-- between them.
pub mac_re-submitted_mac :
    (v : Text)
    → (mac_re (submitted_mac v) ≡ (length (hex_digits v) == 12))
      × ((mac_re (submitted_mac v) ≡ false) ⊎ (is_canonical_mac (submitted_mac v) ≡ true))
mac_re-submitted_mac v = elim (Bool-cases (length (hex_digits v) == 12)) [
  | inl h ↦ let (m, c) = submitted_mac-of_twelve v h in (m ∙ sym h, inr c)
  | inr h ↦ let m = submitted_mac-otherwise v h in (m ∙ sym h, inl m)
]
