-- ===== src/Condition/Editor.antt =====
-- The nested group editor: what `groupEditorHtml` puts on the page, what the row's events do to it,
-- and what `readGroupCondition` reads from it. A `<select>` has the value of its selected option, or
-- else of its first one. The values known for an attribute are a function of dictionary and
-- attribute; `none` is a missing list. Values hold no line breaks, which a text field would drop.
pub mod RoundTrip
use ise_endpoint_portal.Prelude.{
  ℕ, Bool, true, false, ◌||◌, ◌&&◌, not, List, [], ◌∷◌, ◌++◌, Option, none, some, if◌then◌else◌,
  map,
}
use ise_endpoint_portal.Js.Text.{Text, codes, ◌===◌, includes_text, truthy, trim}
use ise_endpoint_portal.Condition.{
  Attr, Kind, and_block, or_block, Cond, Conds, attributes, block, reference, other_type, nil, cons,
  normalize_identity_group_value, or_default,
}

-- the `attrs` of `DICTIONARIES`, in its order
abbrev pub end_points_attrs : List Text
end_points_attrs =
    codes "Owner"
    ∷ codes "Type"
    ∷ codes "Lokation"
    ∷ codes "AuthzVlan"
    ∷ codes "AuthzACL"
    ∷ codes "PlatformType"
    ∷ codes "PSK_Mode"
    ∷ codes "Description"
    ∷ codes "HypervisionActive"
    ∷ codes "HypervisionStatus"
    ∷ codes "GuestRegistration"
    ∷ codes "RegistretBy"
    ∷ codes "GuestExperyDate"
    ∷ codes "GuestAccessExpire"
    ∷ []

abbrev pub radius_attrs : List Text
radius_attrs =
    codes "Called-Station-ID"
    ∷ codes "NAS-Port-Type"
    ∷ codes "NAS-Identifier"
    ∷ codes "User-Name"
    ∷ codes "Framed-IP-Address"
    ∷ []

abbrev pub dictionary_names : List Text
dictionary_names = codes "EndPoints" ∷ codes "IdentityGroup" ∷ codes "Radius" ∷ []

-- the names of `attrOptions`
unfoldable pub attr_options : Text → List Text
attr_options d =
    if d === codes "EndPoints"
    then end_points_attrs
    else if d === codes "IdentityGroup"
    then codes "Name" ∷ []
    else if d === codes "Radius"
    then radius_attrs
    else []

-- the values of `OPERATORS`
abbrev pub operators : List Text
operators =
    codes "equals"
    ∷ codes "notEquals"
    ∷ codes "contains"
    ∷ codes "notContains"
    ∷ codes "startsWith"
    ∷ codes "endsWith"
    ∷ codes "matches"
    ∷ []

abbrev pub first_option : List Text → Text
first_option [] = []
first_option (o ∷ os) = o

-- the value of a `<select>` whose option `sel` is marked as selected
abbrev pub select_value : List Text → Text → Text
select_value options sel = if includes_text options sel then sel else first_option options

-- The inputs for the value of a row: a selection with the text field beside it, a selection alone,
-- or a text field.
pub data Widget : Type 0 where
  choice : Text → Text → Widget
  group_choice : Text → Widget
  plain : Text → Widget

pub record RowElement : Type 0 where
  pub dict : Text
  pub attr : Text
  pub op : Text
  pub widget : Widget

abbrev pub custom_mark : Text
custom_mark = codes "__custom__"

abbrev is_group_name : Text → Text → Bool
is_group_name dict attr = dict === codes "IdentityGroup" && attr === codes "Name"

-- the widget for a list of known values that is not empty
unfoldable pub known_widget : Text → Text → Text → List Text → Widget
known_widget dict attr val known =
    if is_group_name dict attr
    then group_choice (select_value ([] ∷ known) val)
    else if truthy val && not (includes_text known val)
    then choice custom_mark val
    else choice (select_value ([] ∷ (known ++ custom_mark ∷ [])) val) []

module _ (ca : Text → Text → Option (List Text)) where
  -- `valueWidgetHtml`
  unfoldable pub value_widget : Text → Text → Text → Widget
  value_widget dict attr val = elim (ca dict attr) [
    | none ↦ plain val
    | some [] ↦ plain val
    | some (k ∷ ks) ↦ known_widget dict attr val (k ∷ ks)
  ]

  -- `_rowHtml` on the fields of its condition
  unfoldable pub attr_row : Attr → RowElement
  attr_row a =
      let dn = or_default (codes "EndPoints") a.dictionary_name in
      record {
        dict = select_value dictionary_names dn;
        attr = select_value (attr_options dn) a.attribute_name;
        op = select_value operators (or_default (codes "equals") a.operator);
        widget = value_widget dn a.attribute_name a.attribute_value;
      }

abbrev pub no_fields : Attr
no_fields = record {
  dictionary_name = [];
  attribute_name = [];
  operator = [];
  attribute_value = [];
}

-- `_defaultCond`
abbrev pub default_cond : Attr
default_cond = record {
  dictionary_name = codes "EndPoints";
  attribute_name = codes "Owner";
  operator = codes "equals";
  attribute_value = [];
}

-- The elements below `cond-group-children`.
mutual
  pub data Element : Type 0 where
    row : RowElement → Element
    group : Kind → Elements → Element

  pub data Elements : Type 0 where
    empty : Elements
    more : Element → Elements → Elements

module _ (ca : Text → Text → Option (List Text)) where
  abbrev pub default_children : Elements
  default_children = more (row (attr_row ca default_cond)) empty

  abbrev pub or_default_children : Elements → Elements
  or_default_children empty = default_children
  or_default_children (more e es) = more e es

  -- a child of `_groupHtml`: a group for a block, a row for anything else
  unfoldable mutual
    pub child_element : Cond → Element
    child_element (attributes negate a) = row (attr_row ca a)
    child_element (block kind negate children) =
        group kind (or_default_children (child_elements children))
    child_element (reference name) = row (attr_row ca no_fields)
    child_element (other_type ct) = row (attr_row ca no_fields)

    pub child_elements : Conds → Elements
    child_elements nil = empty
    child_elements (cons c cs) = more (child_element c) (child_elements cs)

  -- `groupEditorHtml`
  unfoldable pub group_editor : Option Cond → Element
  group_editor none = group and_block default_children
  group_editor (some (attributes negate a)) = group and_block (more (row (attr_row ca a)) empty)
  group_editor (some (block kind negate children)) =
      group kind (or_default_children (child_elements children))
  group_editor (some (reference name)) = group and_block default_children
  group_editor (some (other_type ct)) = group and_block default_children

-- the value that `_readRow` finds in a widget
unfoldable pub widget_value : Widget → Text
widget_value (choice sel custom) = if sel === custom_mark then trim custom else sel
widget_value (group_choice sel) = if sel === custom_mark then [] else sel
widget_value (plain val) = val

-- `_readRow`
unfoldable pub read_row : RowElement → Attr
read_row r =
    let dict = or_default (codes "EndPoints") r.dict in
    record {
      dictionary_name = dict;
      attribute_name = r.attr;
      operator = or_default (codes "equals") r.op;
      attribute_value = normalize_identity_group_value dict r.attr (widget_value r.widget);
    }

-- The end of `_readGroup`: nothing, a single condition that is no block, or a block.
abbrev pub close_group : Kind → Conds → Option Cond
close_group kind nil = none
close_group kind (cons (attributes n a) nil) = some (attributes n a)
close_group kind (cons (reference name) nil) = some (reference name)
close_group kind (cons (other_type ct) nil) = some (other_type ct)
close_group kind (cons (block k n cs) nil) = some (block kind false (cons (block k n cs) nil))
close_group kind (cons c (cons d cs)) = some (block kind false (cons c (cons d cs)))

abbrev pub push : Option Cond → Conds → Conds
push none cs = cs
push (some c) cs = cons c cs

unfoldable mutual
  pub read_element : Element → Option Cond
  read_element (row r) = some (attributes false (read_row r))
  read_element (group kind es) = close_group kind (read_elements es)

  pub read_elements : Elements → Conds
  read_elements empty = nil
  read_elements (more e es) = push (read_element e) (read_elements es)

-- `readGroupCondition` on the root group
abbrev pub read_group_condition : Element → Option Cond
read_group_condition e = read_element e
