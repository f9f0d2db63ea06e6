-- ===== src/Condition/Tests.antt =====
-- Conditions in the editors: concrete ones, and what the editor makes of one that it cannot show.
use ise_endpoint_portal.Prelude.{
  ◌≡◌, refl, true, false, List, [], ◌∷◌, Option, none, some, if◌then◌else◌,
}
use ise_endpoint_portal.Js.Text.{Text, codes, ◌===◌, includes_text, starts_with, trim}
use ise_endpoint_portal.Condition.{
  Attr, Cond, and_block, or_block, attributes, block, reference, nil, cons,
  normalize_identity_group_value,
}
use ise_endpoint_portal.Condition.Flat.{
  CondRow, build_condition, flatten_condition_to_rows, flatten-build_condition,
}
use ise_endpoint_portal.Condition.Editor.{
  attr_options, value_widget, known_widget, attr_row, child_element, child_elements, group_editor,
  read_row, widget_value, read_element, read_elements, read_group_condition,
}
use ise_endpoint_portal.Condition.Editor.RoundTrip.{
  IsEditable, single, grouped, no_more, one_more, read_group_condition-group_editor,
}

-- the lists of known values: the identity groups and the owners
abbrev known_values : Text → Text → Option (List Text)
known_values dict attr =
    if dict === codes "IdentityGroup"
    then some (codes "Endpoint Identity Groups:Printers" ∷ [])
    else if attr === codes "Owner"
    then some (codes "IT" ∷ [])
    else none

abbrev owner_is : Text → Attr
owner_is v = record {
  dictionary_name = codes "EndPoints";
  attribute_name = codes "Owner";
  operator = codes "equals";
  attribute_value = v;
}

abbrev in_printers : Attr
in_printers = record {
  dictionary_name = codes "IdentityGroup";
  attribute_name = codes "Name";
  operator = codes "notEquals";
  attribute_value = codes "Endpoint Identity Groups:Printers";
}

owner_is-IsEditable : IsEditable known_values (owner_is (codes "HR"))
unfolding ◌===◌ includes_text attr_options normalize_identity_group_value trim
owner_is-IsEditable = record {
  known_dictionary = refl;
  known_attribute = refl;
  known_operator = refl;
  fits = refl;
  is_complete = refl;
}

in_printers-IsEditable : IsEditable known_values in_printers
unfolding ◌===◌ includes_text attr_options normalize_identity_group_value trim starts_with
in_printers-IsEditable = record {
  known_dictionary = refl;
  known_attribute = refl;
  known_operator = refl;
  fits = refl;
  is_complete = refl;
}

-- an alternative of an owner and of a block that holds one block
abbrev nested : Cond
nested = block or_block false (
    cons (attributes false (owner_is (codes "HR"))) (
      cons
        (block and_block false (
          cons (attributes false in_printers)
            (cons (attributes false (owner_is (codes "HR"))) nil)))
        nil))

read_group_condition-group_editor_example :
    read_group_condition (group_editor known_values (some nested)) ≡ some nested
read_group_condition-group_editor_example = read_group_condition-group_editor known_values (
    grouped tt (
      one_more (single owner_is-IsEditable) (
        one_more
          (grouped tt (
            one_more (single in_printers-IsEditable)
              (one_more (single owner_is-IsEditable) no_more)))
          no_more)))

-- A negated condition is read as one that is not negated.
group_editor_drops_negation :
    read_group_condition
      (group_editor known_values (some (attributes true (owner_is (codes "HR")))))
    ≡ some (attributes false (owner_is (codes "HR")))
unfolding ◌===◌ includes_text attr_options normalize_identity_group_value trim group_editor attr_row
    value_widget known_widget read_element read_elements read_row widget_value
group_editor_drops_negation = refl

-- A reference in a block is read as a condition on the owner, and the block is no longer negated.
group_editor_replaces_references :
    read_group_condition (
      group_editor known_values (
        some (
          block and_block true
            (cons (reference (codes "A")) (cons (attributes false in_printers) nil)))))
    ≡ some (
        block and_block false
          (cons (attributes false (owner_is [])) (cons (attributes false in_printers) nil)))
unfolding ◌===◌ includes_text attr_options normalize_identity_group_value trim group_editor attr_row
    value_widget known_widget read_element read_elements read_row widget_value child_element
    child_elements starts_with
group_editor_replaces_references = refl

abbrev two_rows : List CondRow
two_rows =
    record { dict = codes "Radius"; attr = codes "User-Name"; op = codes "contains"; val = [] }
    ∷ record { dict = codes "EndPoints"; attr = codes "Type"; op = codes "equals"; val = codes "x" }
    ∷ []

flatten-build_condition_example :
    flatten_condition_to_rows (build_condition two_rows (codes "OR")) ≡ two_rows
flatten-build_condition_example =
    flatten-build_condition two_rows (codes "OR") ((refl, refl), ((refl, refl), tt))
