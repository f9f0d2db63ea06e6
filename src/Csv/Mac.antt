-- ===== src/Csv/Mac.antt =====
-- `MAC_RE` of frontend/js/csv.js: six pairs of hexadecimal digits, each pair but the last
-- followed by a colon or a dash.
use ise_endpoint_portal.Prelude.{ℕ, zero, suc, Bool, false, ◌&&◌, ◌||◌, [], ◌∷◌, ◌==◌, leb}
use ise_endpoint_portal.Js.Text.{Text}

unfoldable pub is_hex : ℕ → Bool
is_hex c = (leb b'0' c && leb c b'9') || (leb b'A' c && leb c b'F') || (leb b'a' c && leb c b'f')

abbrev pub is_mac_separator : ℕ → Bool
is_mac_separator c = c == b':' || c == b'-'

-- `n` pairs with a separator, then the last pair and the end of the text
unfoldable pub mac_pairs : ℕ → Text → Bool
mac_pairs zero (a ∷ b ∷ []) = is_hex a && is_hex b
mac_pairs (suc n) (a ∷ b ∷ c ∷ s) = (is_hex a && is_hex b && is_mac_separator c) && mac_pairs n s
mac_pairs _ _ = false

-- `MAC_RE.test(s)`
unfoldable pub mac_re : Text → Bool
unfolding mac_pairs is_hex
mac_re = mac_pairs 5
