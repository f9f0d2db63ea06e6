-- ===== src/Condition/Editor/RoundTrip.antt =====
-- Showing a condition in the editor and reading it back.
use ise_endpoint_portal.Prelude.{
  ◌≡◌, refl, ap, ◌∙◌, Bool, true, false, ◌||◌, ◌&&◌, not, List, [], ◌∷◌, Option, none, some,
  if◌then◌else◌, arith, all,
}
use ise_endpoint_portal.Js.Text.{Text, codes, ◌===◌, includes_text, truthy, trim}
use ise_endpoint_portal.Js.Text.Laws.{
  ===_iff, ===_refl, ===_nil_nil, ===_nil_cons, includes_text-append, not-includes_text-nil,
}
use ise_endpoint_portal.Condition.{
  Attr, Kind, Cond, Conds, attributes, block, reference, other_type, nil, cons,
  normalize_identity_group_value, or_default,
}
use ise_endpoint_portal.Condition.Editor.{
  attr_options, dictionary_names, operators, plain, custom_mark, is_group_name, known_widget,
  value_widget, attr_row, child_element, child_elements, or_default_children, group_editor,
  widget_value, read_row, close_group, read_element, read_elements, read_group_condition,
}

-- A list of known values can show this value: it is listed, or, where there is a text field
-- beside the list, has no white space around it; and it is not the mark for that field.
abbrev pub fits_list : Text → Text → Text → List Text → Bool
fits_list dict attr val known =
    (if is_group_name dict attr
      then includes_text ([] ∷ known) val
      else not (truthy val) || includes_text known val || trim val === val)
    && not (val === custom_mark)

module _ (ca : Text → Text → Option (List Text)) where
  abbrev pub fits_widget : Text → Text → Text → Bool
  fits_widget dict attr val = elim (ca dict attr) [
    | none ↦ true
    | some [] ↦ true
    | some (k ∷ ks) ↦ fits_list dict attr val (k ∷ ks)
  ]

  -- The editor has an option for each part of the condition, and the name of an identity group is
  -- complete.
  pub record IsEditable (a : Attr) : Type 0 where
    pub known_dictionary : includes_text dictionary_names a.dictionary_name ≡ true
    pub known_attribute : includes_text (attr_options a.dictionary_name) a.attribute_name ≡ true
    pub known_operator : includes_text operators a.operator ≡ true
    pub fits : fits_widget a.dictionary_name a.attribute_name a.attribute_value ≡ true
    pub is_complete :
        normalize_identity_group_value a.dictionary_name a.attribute_name a.attribute_value
        ≡ a.attribute_value

-- two children or more, or one that is a block
abbrev pub IsGroup : Conds → Type 0
IsGroup nil = ⊥
IsGroup (cons (block k n cs) nil) = Unit
IsGroup (cons (attributes n a) nil) = ⊥
IsGroup (cons (reference name) nil) = ⊥
IsGroup (cons (other_type ct) nil) = ⊥
IsGroup (cons c (cons d cs)) = Unit

-- A condition that the editor can show: nothing is negated, each part is editable, no block could
-- be a single condition, and there is no reference.
mutual
  pub data IsCanonical (ca : Text → Text → Option (List Text)) : Cond → Type 0 where
    single : {a : Attr} → IsEditable ca a → IsCanonical ca (attributes false a)
    grouped :
        {k : Kind} {cs : Conds}
        → IsGroup cs
        → AreCanonical ca cs
        → IsCanonical ca (block k false cs)

  pub data AreCanonical (ca : Text → Text → Option (List Text)) : Conds → Type 0 where
    no_more : AreCanonical ca nil
    one_more :
        {c : Cond} {cs : Conds}
        → IsCanonical ca c
        → AreCanonical ca cs
        → AreCanonical ca (cons c cs)

-- A value of a list without the empty text is not replaced by a default.
or_default-listed :
    (d : Text) (known : List Text) (s : Text)
    → all truthy known ≡ true
    → includes_text known s ≡ true
    → or_default d s ≡ s
or_default-listed d known (c ∷ s) h e = refl
or_default-listed d known [] h e = absurd (not-includes_text-nil known h e)

widget_value-known :
    (dict attr val : Text) (known : List Text)
    → fits_list dict attr val known ≡ true
    → widget_value (known_widget dict attr val known) ≡ val
unfolding known_widget widget_value includes_text
widget_value-known dict attr [] known h =
    ground (arith, includes_text-append known (custom_mark ∷ []) [], ===_nil_nil)
widget_value-known dict attr (c ∷ s) known h = ground (
  arith,
  includes_text-append known (custom_mark ∷ []) (c ∷ s),
  ===_nil_cons c s,
  ===_refl custom_mark,
  ===_iff (trim (c ∷ s)) (c ∷ s),
)

close_group-IsGroup :
    (k : Kind) (cs : Conds) → IsGroup cs → close_group k cs ≡ some (block k false cs)
close_group-IsGroup k nil g = absurd g
close_group-IsGroup k (cons (attributes n a) nil) g = absurd g
close_group-IsGroup k (cons (reference n) nil) g = absurd g
close_group-IsGroup k (cons (other_type n) nil) g = absurd g
close_group-IsGroup k (cons (block j n ds) nil) g = refl
close_group-IsGroup k (cons c (cons d cs)) g = refl

module _ (ca : Text → Text → Option (List Text)) where
  widget_value-value_widget :
      (dict attr val : Text)
      → fits_widget ca dict attr val ≡ true
      → widget_value (value_widget ca dict attr val) ≡ val
  unfolding value_widget
  widget_value-value_widget dict attr val h = go (ca dict attr) h
    where
      go :
          (o : Option (List Text))
          → (elim o [
            | none ↦ true
            | some [] ↦ true
            | some (k ∷ ks) ↦ fits_list dict attr val (k ∷ ks)
          ])
            ≡ true
          → widget_value (elim o [
            | none ↦ plain val
            | some [] ↦ plain val
            | some (k ∷ ks) ↦ known_widget dict attr val (k ∷ ks)
          ])
            ≡ val
      go none e = unfold widget_value in refl
      go (some []) e = unfold widget_value in refl
      go (some (k ∷ ks)) e = widget_value-known dict attr val (k ∷ ks) e

  -- each select shows the part that it was given
  attr_row-editable :
      (a : Attr)
      → IsEditable ca a
      → attr_row ca a ≡ record {
        dict = a.dictionary_name;
        attr = a.attribute_name;
        op = a.operator;
        widget = value_widget ca a.dictionary_name a.attribute_name a.attribute_value;
      }
  unfolding attr_row
  attr_row-editable a h = rw (
    or_default-listed (codes "EndPoints") dictionary_names a.dictionary_name refl
        h.known_dictionary,
    or_default-listed (codes "equals") operators a.operator refl h.known_operator,
    h.known_dictionary,
    h.known_attribute,
    h.known_operator,
  )

  read_row-attr_row : (a : Attr) → IsEditable ca a → read_row (attr_row ca a) ≡ a
  unfolding read_row
  read_row-attr_row a h = rw (attr_row-editable a h) (
      rw (
        or_default-listed (codes "EndPoints") dictionary_names a.dictionary_name refl
            h.known_dictionary,
        or_default-listed (codes "equals") operators a.operator refl h.known_operator,
        widget_value-value_widget a.dictionary_name a.attribute_name a.attribute_value h.fits,
        h.is_complete,
      ))

  -- a group is never shown with default children in place of its own
  or_default-child_elements :
      (cs : Conds)
      → IsGroup cs
      → or_default_children ca (child_elements ca cs) ≡ child_elements ca cs
  unfolding child_elements
  or_default-child_elements nil g = absurd g
  or_default-child_elements (cons c cs) g = refl

mutual
  unfolding child_element child_elements read_element read_elements

  read_child :
      (ca : Text → Text → Option (List Text)) {c : Cond}
      → IsCanonical ca c
      → read_element (child_element ca c) ≡ some c
  read_child ca (single {a} h) = ap (λ x. some (attributes false x)) (read_row-attr_row ca a h)
  read_child ca (grouped {k} {cs} g h) =
      rw (or_default-child_elements ca cs g)
        (ap (close_group k) (read_children ca h) ∙ close_group-IsGroup k cs g)

  read_children :
      (ca : Text → Text → Option (List Text)) {cs : Conds}
      → AreCanonical ca cs
      → read_elements (child_elements ca cs) ≡ cs
  read_children ca no_more = refl
  read_children ca (one_more {c} {cs} h hs) =
      rw (read_child ca h) (ap (cons c) (read_children ca hs))

-- The editor that shows a condition is read as that same condition, when the condition is one that
-- the editor can show: no part of it is negated or a reference, each dictionary, attribute and
-- operator is one of those offered, each value can be chosen or typed, and no block has fewer than
-- two children unless its one child is a block.
pub read_group_condition-group_editor :
    (ca : Text → Text → Option (List Text)) {c : Cond}
    → IsCanonical ca c
    → read_group_condition (group_editor ca (some c)) ≡ some c
unfolding group_editor read_element read_elements child_element
read_group_condition-group_editor ca (single {a} h) =
    ap (λ x. some (attributes false x)) (read_row-attr_row ca a h)
read_group_condition-group_editor ca (grouped g h) = read_child ca (grouped g h)
