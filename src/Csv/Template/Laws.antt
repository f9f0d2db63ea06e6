-- ===== src/Csv/Template/Laws.antt =====
-- Splitting a file into lines, and what extending a template keeps and adds.
use mathlib.Core.List.{append_assoc}
use ise_endpoint_portal.Prelude.{
  ℕ, ◌≡◌, refl, ap, ◌∙◌, inl, inr, false, not, ◌||◌, List, [], ◌∷◌, ◌++◌, arith, ◌==◌, Bool-cases,
}
use ise_endpoint_portal.Js.Text.{Text, has_unit, prepend, includes_text}
use ise_endpoint_portal.Js.Text.Laws.{includes_text-append, includes_text-filter, truthy-trim}
use ise_endpoint_portal.Csv.Row.{quote, parse_row}
use ise_endpoint_portal.Csv.Template.{
  parse_template_header, first_line_names, strip_bom, column_names, default_template,
  extend_template, split_lines, text_lines,
}

split_lines-newline : (s : Text) → split_lines (b'\n' ∷ s) ≡ [] ∷ split_lines s
unfolding split_lines
split_lines-newline [] = refl
split_lines-newline (d ∷ s) = refl

split_lines-unit :
    (c d : ℕ) (s : Text)
    → (c == b'\n') ≡ false
    → (d == b'\n') ≡ false
    → split_lines (c ∷ d ∷ s) ≡ prepend c (split_lines (d ∷ s))
unfolding split_lines
split_lines-unit c d s hc hd = elim (Bool-cases (c == b'\r')) [
  | inl e ↦ rw (hc, split_lines, e, hd)
  | inr e ↦ rw (hc, split_lines, e)
]

-- A line that ends in a quote stands alone up to its newline.
pub split_lines-line :
    (l rest : Text)
    → has_unit b'\n' l ≡ false
    → split_lines (l ++ quote ∷ b'\n' ∷ rest) ≡ (l ++ quote ∷ []) ∷ split_lines rest
unfolding has_unit
split_lines-line [] rest h = unfold split_lines in ap (prepend quote) (split_lines-newline rest)
split_lines-line (c ∷ []) rest h =
    split_lines-unit c quote (b'\n' ∷ rest) (ground arith) refl
    ∙ ap (prepend c) (split_lines-line [] rest refl)
split_lines-line (c ∷ d ∷ l) rest h =
    split_lines-unit c d (l ++ quote ∷ b'\n' ∷ rest) (ground arith) (ground arith)
    ∙ ap (prepend c) (split_lines-line (d ∷ l) rest (ground arith))

-- A line that the exporter writes: it is quoted at both ends, and holds no newline.
pub record IsQuotedLine (line : Text) : Type 0 where
  pub inner : Text
  pub shape : line ≡ (quote ∷ inner) ++ quote ∷ []
  pub no_newline : has_unit b'\n' inner ≡ false

pub text_lines-line :
    {line : Text} (rest : Text)
    → IsQuotedLine line
    → text_lines (line ++ b'\n' ∷ rest) ≡ line ∷ text_lines rest
unfolding text_lines
text_lines-line {line} rest q =
    rw
      (
        q.shape,
        append_assoc,
        split_lines-line (quote ∷ q.inner) rest (unfold has_unit in q.no_newline),
      )
      (rw (truthy-trim quote (q.inner ++ quote ∷ []) refl))

pub text_lines_nil : text_lines [] ≡ []
unfolding text_lines
text_lines_nil = refl

-- A column is in the extended template exactly if it was given or is a column of the portal.
includes-extend_template :
    (cols : List Text) (c : Text)
    → includes_text (extend_template cols) c
      ≡ (includes_text cols c || includes_text default_template c)
unfolding extend_template
includes-extend_template cols c =
    rw
      (
        includes_text-append,
        includes_text-filter (λ x. not (includes_text cols x)) default_template c,
      )
      (ground arith)

parse_template_header-lines :
    (text : Text) → parse_template_header text ≡ first_line_names (text_lines (strip_bom text))
unfolding parse_template_header
parse_template_header-lines text = refl

first_line_names-cons :
    (l : Text) (ls : List Text) → first_line_names (l ∷ ls) ≡ column_names (parse_row l)
unfolding first_line_names
first_line_names-cons l ls = refl

strip_bom-quoted :
    {line : Text} (rest : Text) → IsQuotedLine line → strip_bom (line ++ rest) ≡ line ++ rest
strip_bom-quoted rest q = rw q.shape

-- The header of a file is read from its first line alone.
pub parse_template_header-line :
    {line : Text} (rest : Text)
    → IsQuotedLine line
    → parse_template_header (line ++ b'\n' ∷ rest) ≡ column_names (parse_row line)
parse_template_header-line {line} rest q =
    parse_template_header-lines (line ++ b'\n' ∷ rest)
    ∙ rw (strip_bom-quoted (b'\n' ∷ rest) q, text_lines-line rest q)
        (first_line_names-cons line (text_lines rest))
