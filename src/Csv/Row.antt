-- ===== src/Csv/Row.antt =====
-- One CSV line (frontend/js/csv.js): `parseRow`, `stripQuotes`, `csvQuote`.
-- The index `i` of the source is the text that is left to read.
pub mod Laws
use ise_endpoint_portal.Prelude.{
  ℕ, zero, suc, ◌+◌, Bool, true, false, ◌&&◌, ◌||◌, Option, none, some, List, [], ◌∷◌, ◌++◌, map,
  length, ◌==◌, leb, if◌then◌else◌,
}
use ise_endpoint_portal.Js.Text.{Text, has_unit, replace_all, join}

abbrev pub quote : ℕ
quote = b'"'

abbrev pub comma : ℕ
comma = b','

abbrev pub cons_fst : ℕ → Text × Text → Text × Text
cons_fst c (val, rest) = (c ∷ val, rest)

-- The loop behind an opening quote: the value, and what stands behind its closing quote.
unfoldable pub read_quoted : Text → Text × Text
read_quoted [] = ([], [])
read_quoted (c ∷ []) = if c == quote then ([], []) else (c ∷ [], [])
read_quoted (c ∷ d ∷ s) = elim (c == quote) [
  | true ↦ elim (d == quote) [ true ↦ cons_fst quote (read_quoted s) | false ↦ ([], d ∷ s) ]
  | false ↦ cons_fst c (read_quoted (d ∷ s))
]

-- `if (i < line.length && line[i] === ',') i++`
abbrev pub skip_comma : Text → Text
skip_comma [] = []
skip_comma (c ∷ s) = if c == comma then s else c ∷ s

-- An unquoted field, and what stands behind its comma; `none` if no comma follows.
unfoldable pub read_plain : Text → Text × Option Text
read_plain [] = ([], none)
read_plain (c ∷ s) =
    let (val, rest) = read_plain s in if c == comma then ([], some s) else (c ∷ val, rest)

-- `while (i <= line.length)`, with fuel for the rounds
unfoldable pub read_fields : ℕ → Text → List Text
read_fields zero line = []
read_fields (suc fuel) [] = [] ∷ []
read_fields (suc fuel) (c ∷ s) = elim (c == quote) [
  | true ↦ let (val, rest) = read_quoted s in val ∷ read_fields fuel (skip_comma rest)
  | false ↦
      let (val, rest) = read_plain (c ∷ s) in
      elim rest [ none ↦ val ∷ [] | some behind ↦ val ∷ read_fields fuel behind ]
]

-- Each round reads at least one unit, so the length is fuel enough.
unfoldable pub parse_row : Text → List Text
unfolding read_fields read_quoted read_plain
parse_row line = read_fields (suc (length line)) line

-- the text without its last unit, which is the quote that `endsWith` found
abbrev pub drop_last : Text → Text
drop_last [] = []
drop_last (c ∷ []) = []
drop_last (c ∷ d ∷ s) = c ∷ drop_last (d ∷ s)

abbrev pub last_is : ℕ → Text → Bool
last_is q [] = false
last_is q (c ∷ []) = c == q
last_is q (c ∷ d ∷ s) = last_is q (d ∷ s)

abbrev pub single : ℕ
single = 39

-- `stripQuotes`
unfoldable pub strip_quotes : Text → Text
strip_quotes [] = []
strip_quotes (c ∷ s) =
    if leb 2 (length (c ∷ s)) && (c == single && last_is single (c ∷ s)) then drop_last s else c ∷ s

-- `csvQuote`
unfoldable pub csv_quote : Text → Text
unfolding has_unit replace_all
csv_quote s =
    if has_unit quote s || (has_unit comma s || has_unit b'\n' s)
    then quote ∷ (replace_all quote (quote ∷ quote ∷ []) s ++ quote ∷ [])
    else quote ∷ (s ++ quote ∷ [])

-- `cells.map(csvQuote).join(",")`
unfoldable pub csv_line : List Text → Text
unfolding csv_quote join
csv_line cells = join (comma ∷ []) (map csv_quote cells)
