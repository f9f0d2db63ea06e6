-- ===== src/Register/Mac/Scanned.antt =====
-- What the scanner hands to the form.
use ise_endpoint_portal.Prelude.{
  ℕ, zero, suc, ◌≡◌, ◌≤◌, refl, sym, ap, ◌∙◌, inl, inr, true, ◌&&◌, List, [], ◌∷◌, Option, none,
  some, if◌then◌else◌, map, length, ◌==◌, All, arith, Bool-cases, length-map,
}
use ise_endpoint_portal.Js.Text.{Text, trim, upper, to_upper_case}
use ise_endpoint_portal.Csv.Mac.{is_hex, is_mac_separator, mac_pairs, mac_re}
use ise_endpoint_portal.ImportPage.Sent.{is_canonical_mac, &&-split}
use ise_endpoint_portal.Register.Mac.{
  hex_digits, with_colons, submitted_mac, cons?, optional_separator, extract_at, extract,
  mac_of_code, mac_of_codes, Tick, cancelled, picture, scan,
}
use ise_endpoint_portal.Register.Mac.Digits.{
  hex_digits-IsUpperHex, with_colons-canonical, length-hex_digits, length-hex_digits-two,
  hex_digits-separator, hex_digits-trim,
}
use ise_endpoint_portal.Register.Mac.Canonical.{canonical-accepted}
use ise_endpoint_portal.Register.Mac.Accepted.{
  mac_re-pairs, normalise_mac-of_twelve, submitted_mac-upper, submitted_mac-of_canonical,
}

-- what a match has: its digits
abbrev HasDigits : ℕ → Option Text → Type 0
HasDigits n none = Unit
HasDigits n (some m) = length (hex_digits m) ≡ n

cons?-separator :
    (n c : ℕ) (o : Option Text)
    → is_mac_separator c ≡ true
    → HasDigits n o
    → HasDigits n (cons? c o)
cons?-separator n c none h k = tt
cons?-separator n c (some m) h k = ap length (hex_digits-separator c m h) ∙ k

cons?-two :
    (n a b : ℕ) (o : Option Text)
    → is_hex a ≡ true
    → is_hex b ≡ true
    → HasDigits n o
    → HasDigits (suc (suc n)) (cons? a (cons? b o))
cons?-two n a b none ha hb k = tt
cons?-two n a b (some m) ha hb k = length-hex_digits-two a b m ha hb ∙ ap suc (ap suc k)

optional_separator-digits :
    (n : ℕ) (next : Text → Option Text) (s : Text)
    → ((t : Text) → HasDigits n (next t))
    → HasDigits n (optional_separator next s)
optional_separator-digits n next [] h = h []
optional_separator-digits n next (c ∷ s) h = elim (Bool-cases (is_mac_separator c)) [
  | inl e ↦ rw e (cons?-separator n c (next s) e (h s))
  | inr e ↦ rw e (h (c ∷ s))
]

abbrev digits_of : ℕ → ℕ
digits_of zero = 2
digits_of (suc n) = suc (suc (digits_of n))

length-nil : length (hex_digits []) ≡ 0
unfolding hex_digits
length-nil = refl

extract_at-digits : (n : ℕ) (s : Text) → HasDigits (digits_of n) (extract_at n s)
unfolding extract_at
extract_at-digits zero (a ∷ b ∷ s) = elim (Bool-cases (is_hex a && is_hex b)) [
  | inl e ↦
      let (ha, hb) = &&-split (is_hex a) (is_hex b) e in
      rw e (length-hex_digits-two a b [] ha hb ∙ ap suc (ap suc length-nil))
  | inr e ↦ rw e tt
]
extract_at-digits (suc n) (a ∷ b ∷ s) = elim (Bool-cases (is_hex a && is_hex b)) [
  | inl e ↦
      let (ha, hb) = &&-split (is_hex a) (is_hex b) e in
      rw e (
        cons?-two (digits_of n) a b (optional_separator (extract_at n) s) ha hb
          (optional_separator-digits (digits_of n) (extract_at n) s (extract_at-digits n)))
  | inr e ↦ rw e tt
]
extract_at-digits zero [] = tt
extract_at-digits zero (a ∷ []) = tt
extract_at-digits (suc n) [] = tt
extract_at-digits (suc n) (a ∷ []) = tt

first-digits :
    (n : ℕ) (o later : Option Text)
    → HasDigits n o
    → HasDigits n later
    → HasDigits n (elim o [ none ↦ later | some m ↦ some m ])
first-digits n none later h k = k
first-digits n (some m) later h k = h

extract-digits : (s : Text) → HasDigits 12 (extract s)
unfolding extract
extract-digits [] = tt
extract-digits (c ∷ s) =
    first-digits 12 (extract_at 5 (c ∷ s)) (extract s) (extract_at-digits 5 (c ∷ s))
      (extract-digits s)

abbrev mac_of_digits : Text → Option Text
mac_of_digits hex = if length hex == 12 then some (with_colons hex) else none

mac_of_code-extract :
    (raw : Text)
    → mac_of_code raw
      ≡ elim (extract raw) [ none ↦ none | some m ↦ mac_of_digits (map upper (hex_digits m)) ]
unfolding mac_of_code to_upper_case
mac_of_code-extract raw = refl

mac_of_digits-twelve :
    (m : Text)
    → length (hex_digits m) ≡ 12
    → mac_of_digits (map upper (hex_digits m)) ≡ some (with_colons (map upper (hex_digits m)))
mac_of_digits-twelve m h = rw (length-map upper (hex_digits m), h) refl

-- an address that is found is canonical
abbrev IsFound : Option Text → Type 0
IsFound none = Unit
IsFound (some m) = is_canonical_mac m ≡ true

mac_of_code-extracted :
    (raw : Text) (o : Option Text) → extract raw ≡ o → HasDigits 12 o → IsFound (mac_of_code raw)
mac_of_code-extracted raw none e h = rw (mac_of_code-extract raw, e) tt
mac_of_code-extracted raw (some m) e h =
    rw (mac_of_code-extract raw, e, mac_of_digits-twelve m h)
      (with_colons-canonical 5 (map upper (hex_digits m)) (hex_digits-IsUpperHex m)
        (length-map upper (hex_digits m) ∙ h))

mac_of_code-IsFound : (raw : Text) → IsFound (mac_of_code raw)
mac_of_code-IsFound raw = mac_of_code-extracted raw (extract raw) refl (extract-digits raw)

first-IsFound :
    (o later : Option Text)
    → IsFound o
    → IsFound later
    → IsFound (elim o [ none ↦ later | some m ↦ some m ])
first-IsFound none later h k = k
first-IsFound (some m) later h k = h

mac_of_codes-IsFound : (cs : List Text) → IsFound (mac_of_codes cs)
unfolding mac_of_codes
mac_of_codes-IsFound [] = tt
mac_of_codes-IsFound (c ∷ cs) =
    first-IsFound (mac_of_code c) (mac_of_codes cs) (mac_of_code-IsFound c)
      (mac_of_codes-IsFound cs)

-- at most one address, one that the form sends as it is
abbrev IsHandedOn : List Text → Type 0
IsHandedOn ms = (length ms ≤ 1) × All (λ m. (is_canonical_mac m ≡ true) × (submitted_mac m ≡ m)) ms

first-IsHandedOn :
    (o : Option Text) (later : List Text)
    → IsFound o
    → IsHandedOn later
    → IsHandedOn (elim o [ none ↦ later | some m ↦ m ∷ [] ])
first-IsHandedOn none later h k = k
first-IsHandedOn (some m) later h k = (omega arith, ((h, submitted_mac-of_canonical m h), tt))

-- Whatever the camera sees until the scanner is closed, it hands the form at most one address, and
-- that is six pairs of upper-case hexadecimal digits with colons between them, which the form sends
-- as it is.
scan-IsHandedOn :
    (ts : List Tick)
    → (length (scan ts) ≤ 1)
      × All (λ m. (is_canonical_mac m ≡ true) × (submitted_mac m ≡ m)) (scan ts)
unfolding scan
scan-IsHandedOn [] = (omega arith, tt)
scan-IsHandedOn (cancelled ∷ ts) = (omega arith, tt)
scan-IsHandedOn (picture none ∷ ts) = scan-IsHandedOn ts
scan-IsHandedOn (picture (some cs) ∷ ts) =
    first-IsHandedOn (mac_of_codes cs) (scan ts) (mac_of_codes-IsFound cs) (scan-IsHandedOn ts)

cons?-some : (c : ℕ) (o : Option Text) (m : Text) → o ≡ some m → cons? c o ≡ some (c ∷ m)
cons?-some c o m e = ap (cons? c) e

extract_at-pairs : (n : ℕ) (m : Text) → mac_pairs n m ≡ true → extract_at n m ≡ some m
unfolding mac_pairs extract_at
extract_at-pairs zero (a ∷ b ∷ []) h = rw h refl
extract_at-pairs (suc n) (a ∷ b ∷ c ∷ s) h =
    let (front, t) = &&-split (is_hex a && is_hex b && is_mac_separator c) (mac_pairs n s) h in
    let (hab, hc) = &&-split (is_hex a && is_hex b) (is_mac_separator c) front in
    rw (hab, hc, extract_at-pairs n s t) refl
extract_at-pairs zero [] h = absurd (cc h)
extract_at-pairs zero (a ∷ []) h = absurd (cc h)
extract_at-pairs zero (a ∷ b ∷ c ∷ s) h = absurd (cc h)
extract_at-pairs (suc n) [] h = absurd (cc h)
extract_at-pairs (suc n) (a ∷ []) h = absurd (cc h)
extract_at-pairs (suc n) (a ∷ b ∷ []) h = absurd (cc h)

extract-mac : (m : Text) → mac_re m ≡ true → extract m ≡ some m
unfolding extract mac_re mac_pairs
extract-mac [] h = absurd (cc h)
extract-mac (c ∷ s) h =
    ap (λ o. elim o [ none ↦ extract s | some x ↦ some x ]) (extract_at-pairs 5 (c ∷ s) h)

-- A code that holds an address, in either case and with colons or dashes, is read by the scanner as
-- the form sends the same text when it is typed.
mac_of_code-submitted_mac : (m : Text) → mac_re m ≡ true → mac_of_code m ≡ some (submitted_mac m)
mac_of_code-submitted_mac m h =
    let k = length-hex_digits 5 m (sym (mac_re-pairs m) ∙ h) in
    let kt = ap length (hex_digits-trim m) ∙ k in
    let (e, c) = normalise_mac-of_twelve (trim m) (ground (arith, kt)) in
    let (same, accepted) = canonical-accepted 5 (with_colons (map upper (hex_digits (trim m)))) c in
    rw (mac_of_code-extract m, extract-mac m h, mac_of_digits-twelve m k)
      (ap some (
        sym (
          submitted_mac-upper m
          ∙ ap (map upper) e
          ∙ same
          ∙ ap (λ t. with_colons (map upper t)) (hex_digits-trim m))))
