-- ===== src/Register/Mac.antt =====
-- frontend/js/views/register.js: the address as it is typed, normalised, and read by the scanner.
pub mod Digits
pub mod Canonical
pub mod Accepted
pub mod Scanned
use ise_endpoint_portal.Prelude.{
  ℕ, zero, suc, Bool, ◌&&◌, List, [], ◌∷◌, Option, none, some, filter, length, ◌==◌, if◌then◌else◌,
}
use ise_endpoint_portal.Js.Text.{Text, join, trim, to_upper_case}
use ise_endpoint_portal.Csv.Mac.{is_hex, is_mac_separator}

-- `s.replace(/[^0-9A-Fa-f]/g, "")`
unfoldable pub hex_digits : Text → Text
unfolding is_hex
hex_digits s = filter is_hex s

-- `hex.match(/.{2}/g)`
unfoldable pub pairs : Text → List Text
pairs (a ∷ b ∷ s) = (a ∷ b ∷ []) ∷ pairs s
pairs _ = []

-- `hex.match(/.{2}/g).join(":")`
unfoldable pub with_colons : Text → Text
unfolding pairs join
with_colons hex = join (b':' ∷ []) (pairs hex)

unfoldable pub normalise_mac : Text → Text
unfolding with_colons hex_digits to_upper_case
normalise_mac raw =
    let hex = to_upper_case (hex_digits raw) in if length hex == 12 then with_colons hex else raw

-- the address that the submit handler makes of the field
unfoldable pub submitted_mac : Text → Text
unfolding normalise_mac to_upper_case trim
submitted_mac value = to_upper_case (normalise_mac (trim value))

abbrev cons? : ℕ → Option Text → Option Text
cons? c none = none
cons? c (some s) = some (c ∷ s)

-- `[:\-]?`: a separator is no hexadecimal digit, so leaving one out never helps
abbrev pub optional_separator : (Text → Option Text) → Text → Option Text
optional_separator next [] = next []
optional_separator next (c ∷ s) = if is_mac_separator c then cons? c (next s) else next (c ∷ s)

-- a match of `MAC_EXTRACT_RE` at the start of a text, with `n` pairs before the last
unfoldable pub extract_at : ℕ → Text → Option Text
unfolding is_hex
extract_at zero (a ∷ b ∷ s) = if is_hex a && is_hex b then some (a ∷ b ∷ []) else none
extract_at (suc n) (a ∷ b ∷ s) =
    let rest = optional_separator (extract_at n) s in
    if is_hex a && is_hex b then cons? a (cons? b rest) else none
extract_at _ _ = none

-- `s.match(MAC_EXTRACT_RE)`: the leftmost match
unfoldable pub extract : Text → Option Text
unfolding extract_at
extract [] = none
extract (c ∷ s) =
    let later = extract s in elim (extract_at 5 (c ∷ s)) [ none ↦ later | some m ↦ some m ]

-- the address of a code; a code with fewer or more digits is passed over
unfoldable pub mac_of_code : Text → Option Text
unfolding extract with_colons hex_digits to_upper_case
mac_of_code raw = elim (extract raw) [
  | none ↦ none
  | some m ↦
      let hex = to_upper_case (hex_digits m) in
      if length hex == 12 then some (with_colons hex) else none
]

-- the loop over the codes of a picture
unfoldable pub mac_of_codes : List Text → Option Text
unfolding mac_of_code
mac_of_codes [] = none
mac_of_codes (c ∷ cs) =
    let later = mac_of_codes cs in elim (mac_of_code c) [ none ↦ later | some m ↦ some m ]

-- What happens to an open scanner: the user cancels, or a picture is read; `none` where the
-- detector throws.
pub data Tick : Type 0 where
  cancelled : Tick
  picture : Option (List Text) → Tick

-- the addresses for which `on_match` is called while the scanner is open
unfoldable pub scan : List Tick → List Text
unfolding mac_of_codes
scan [] = []
scan (cancelled ∷ ts) = []
scan (picture none ∷ ts) = scan ts
scan (picture (some cs) ∷ ts) =
    let later = scan ts in elim (mac_of_codes cs) [ none ↦ later | some m ↦ m ∷ [] ]
