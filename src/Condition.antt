-- ===== src/Condition.antt =====
-- frontend/js/views/policy-condition-builder.js: conditions of RADIUS policies and their editor.
pub mod Flat
pub mod Editor
mod Tests
use ise_endpoint_portal.Prelude.{
  ℕ, Bool, true, false, ◌||◌, ◌&&◌, not, List, [], ◌∷◌, ◌++◌, Option, none, some, if◌then◌else◌,
  map,
}
use ise_endpoint_portal.Js.Text.{Text, codes, ◌===◌, starts_with, truthy}

-- The four fields of a `ConditionAttributes`; a missing field is the empty text, since the code
-- reads each by `||`.
pub record Attr : Type 0 where
  pub dictionary_name : Text
  pub attribute_name : Text
  pub operator : Text
  pub attribute_value : Text

pub data Kind : Type 0 where
  and_block or_block : Kind

-- An ISE condition: attributes or a block, each with `isNegate`; a reference; any other
-- `conditionType`, the empty text if it is missing.
mutual
  pub data Cond : Type 0 where
    attributes : Bool → Attr → Cond
    block : Kind → Bool → Conds → Cond
    reference : Text → Cond
    other_type : Text → Cond

  pub data Conds : Type 0 where
    nil : Conds
    cons : Cond → Conds → Conds

abbrev pub identity_group_prefix : Text
identity_group_prefix = codes "Endpoint Identity Groups:"

-- `normalizeIdentityGroupValue`
unfoldable pub normalize_identity_group_value : Text → Text → Text → Text
normalize_identity_group_value dict attr val =
    if not (dict === codes "IdentityGroup") || not (attr === codes "Name")
    then val
    else if not (truthy val) || starts_with val identity_group_prefix
    then val
    else identity_group_prefix ++ val

-- `s || d`
abbrev pub or_default : Text → Text → Text
or_default d [] = d
or_default d (c ∷ s) = c ∷ s
