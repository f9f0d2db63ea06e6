-- ===== src/Csv/Row/Laws.antt =====
-- Reading back what was written: `parseRow` after `csvQuote` and `join`.
use mathlib.Core.List.{append_assoc}
use ise_endpoint_portal.Prelude.{
  ℕ, zero, suc, ◌≤◌, ◌<◌, ◌≡◌, refl, ap, ◌∙◌, inl, inr, false, some, List, [], ◌∷◌, ◌++◌, length,
  length-append, arith, ◌==◌, ==_iff, if◌then◌else◌, Bool-cases, Option-cases,
}
use ise_endpoint_portal.Js.Text.{Text, has_unit, replace_all}
use ise_endpoint_portal.Js.Text.Laws.{replace_all-of_not_has}
use ise_endpoint_portal.Csv.Row.{
  quote, comma, cons_fst, read_quoted, skip_comma, read_plain, read_fields, parse_row, csv_quote,
  csv_line,
}

-- a value with each quote doubled
abbrev pub doubled : Text → Text
doubled = replace_all quote (quote ∷ quote ∷ [])

-- Both branches of `csvQuote` write the value with its quotes doubled.
pub csv_quote-doubled : (s : Text) → csv_quote s ≡ quote ∷ (doubled s ++ quote ∷ [])
unfolding csv_quote
csv_quote-doubled s = elim (Bool-cases (has_unit quote s)) [
  | inl e ↦ rw e
  | inr e ↦ rw (replace_all-of_not_has quote (quote ∷ quote ∷ []) s e) (ground arith)
]

read_quoted-length : (s : Text) → length (read_quoted s).1 ≤ length s
unfolding read_quoted
read_quoted-length [] = omega arith
read_quoted-length (c ∷ []) = ground arith
read_quoted-length (c ∷ d ∷ s) = ground (arith, read_quoted-length s, read_quoted-length (d ∷ s))

read_plain-length :
    (s behind : Text) → (read_plain s).1 ≡ some behind → suc (length behind) ≤ length s
unfolding read_plain
read_plain-length [] behind h = absurd (cc)
read_plain-length (c ∷ s) behind h = ground (arith, read_plain-length s behind)

skip_comma-length : (s : Text) → length (skip_comma s) ≤ length s
skip_comma-length [] = omega arith
skip_comma-length (c ∷ s) = ground arith

-- What stands behind a value does not go on with a quote.
abbrev Ends : Text → Type 0
Ends [] = Unit
Ends (c ∷ s) = (c == quote) ≡ false

read_quoted-unit :
    (c : ℕ) (s : Text) → (c == quote) ≡ false → read_quoted (c ∷ s) ≡ cons_fst c (read_quoted s)
unfolding read_quoted
read_quoted-unit c [] h = ground arith
read_quoted-unit c (d ∷ s) h = rw (h, read_quoted)

read_quoted-pair : (s : Text) → read_quoted (quote ∷ quote ∷ s) ≡ cons_fst quote (read_quoted s)
unfolding read_quoted
read_quoted-pair s = refl

read_quoted-close : (rest : Text) → Ends rest → read_quoted (quote ∷ rest) ≡ ([], rest)
unfolding read_quoted
read_quoted-close [] h = refl
read_quoted-close (d ∷ r) h = rw (h, read_quoted)

doubled-cons :
    (c : ℕ) (s : Text)
    → doubled (c ∷ s) ≡ (if c == quote then quote ∷ quote ∷ doubled s else c ∷ doubled s)
unfolding replace_all
doubled-cons c s = refl

-- The loop behind an opening quote gives the value back, and stops behind the closing quote.
read_quoted-doubled :
    (s rest : Text) → Ends rest → read_quoted (doubled s ++ quote ∷ rest) ≡ (s, rest)
unfolding replace_all
read_quoted-doubled [] rest h = read_quoted-close rest h
read_quoted-doubled (x ∷ s) rest h = elim (Bool-cases (x == quote)) [
  | inl e ↦ rw e (rw read_quoted-pair (rw (read_quoted-doubled s rest h, ← (==_iff x quote).0 e)))
  | inr e ↦
      rw e
        (rw (read_quoted-unit x (doubled s ++ quote ∷ rest) e) (rw (read_quoted-doubled s rest h)))
]

-- A quoted field, with any text behind it that does not go on with a quote.
pub read_fields-quoted :
    (fuel : ℕ) (s rest : Text)
    → Ends rest
    → read_fields (suc fuel) (quote ∷ (doubled s ++ quote ∷ rest))
      ≡ s ∷ read_fields fuel (skip_comma rest)
unfolding read_fields
read_fields-quoted fuel s rest h = rw (read_quoted-doubled s rest h, read_fields)

-- Two amounts of fuel above the length give the same fields: the loop has ended by itself.
pub read_fields-fuel :
    (f g : ℕ) (line : Text)
    → length line < f
    → length line < g
    → read_fields f line ≡ read_fields g line
unfolding read_fields
read_fields-fuel zero g line h k = elim h [ ]
read_fields-fuel (suc f) zero line h k = elim k [ ]
read_fields-fuel (suc f) (suc g) [] h k = refl
read_fields-fuel (suc f) (suc g) (c ∷ s) h k = elim (Bool-cases (c == quote)) [
  | inl e ↦
      rw (e, read_fields)
        (ap (◌∷◌ (read_quoted s).0)
          (read_fields-fuel f g (skip_comma (read_quoted s).1) (after_quote f h) (after_quote g k)))
  | inr e ↦ elim (Option-cases (read_plain (c ∷ s)).1) [
    | inl last ↦ rw (e, read_fields, last)
    | inr (behind, more) ↦
        rw (e, read_fields, more)
          (ap (◌∷◌ (read_plain (c ∷ s)).0) (
            read_fields-fuel f g behind (after_plain f behind more h)
              (after_plain g behind more k)))
  ]
]
  where
    after_quote : (n : ℕ) → suc (length s) < suc n → length (skip_comma (read_quoted s).1) < n
    after_quote n l = omega (arith, skip_comma-length (read_quoted s).1, read_quoted-length s)

    after_plain :
        (n : ℕ) (behind : Text)
        → (read_plain (c ∷ s)).1 ≡ some behind
        → suc (length s) < suc n
        → length behind < n
    after_plain n behind e l = omega (arith, read_plain-length (c ∷ s) behind e)

-- One round of the loop on a field that `csvQuote` wrote, with a comma and more behind it.
parse_row-quoted-comma :
    (s more : Text) → parse_row (quote ∷ (doubled s ++ quote ∷ comma ∷ more)) ≡ s ∷ parse_row more
unfolding parse_row
parse_row-quoted-comma s more =
    let n = length (quote ∷ (doubled s ++ quote ∷ comma ∷ more)) in
    read_fields-quoted n s (comma ∷ more) refl
    ∙ ap (◌∷◌ s) (
        read_fields-fuel n (suc (length more)) more
          (omega (arith, length-append (doubled s) (quote ∷ comma ∷ more))) (omega arith))

parse_row-quoted-end : (s : Text) → parse_row (quote ∷ (doubled s ++ quote ∷ [])) ≡ s ∷ [] ∷ []
unfolding parse_row
parse_row-quoted-end s = read_fields-quoted (length (quote ∷ (doubled s ++ quote ∷ []))) s [] tt

pub csv_line-cons :
    (s t : Text) (cells : List Text)
    → csv_line (s ∷ t ∷ cells) ≡ quote ∷ (doubled s ++ quote ∷ comma ∷ csv_line (t ∷ cells))
unfolding csv_line
csv_line-cons s t cells = rw csv_quote-doubled (rw append_assoc)

-- Reading a line that was written from cells gives the cells back, whatever they hold, and one
-- more empty field, which the loop pushes after the closing quote of the last field.
pub parse_row-csv_line : (cells : List Text) → parse_row (csv_line cells) ≡ cells ++ ([] ∷ [])
parse_row-csv_line [] = unfold parse_row csv_line in refl
parse_row-csv_line (s ∷ []) = unfold csv_line in rw csv_quote-doubled (parse_row-quoted-end s)
parse_row-csv_line (s ∷ t ∷ cells) =
    rw csv_line-cons (
      parse_row-quoted-comma s (csv_line (t ∷ cells)) ∙ ap (◌∷◌ s) (parse_row-csv_line (t ∷ cells)))

-- The loop of `parseRow` ends by its own test: any fuel above the length of the line gives the
-- fields of `parse_row`.
pub read_fields-parse_row :
    (fuel : ℕ) (line : Text) → length line < fuel → read_fields fuel line ≡ parse_row line
unfolding parse_row
read_fields-parse_row fuel line h = read_fields-fuel fuel (suc (length line)) line h (omega arith)
