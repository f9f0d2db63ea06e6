-- ===== src/Condition/Flat.antt =====
-- The flat editor: `buildCondition` and `flattenConditionToRows`.
use ise_endpoint_portal.Prelude.{
  ◌≡◌, refl, ap, ◌∙◌, true, false, List, [], ◌∷◌, ◌++◌, Option, none, some, if◌then◌else◌, arith,
  All,
}
use ise_endpoint_portal.Js.Text.{Text, codes, ◌===◌, truthy}
use ise_endpoint_portal.Js.Text.Laws.{starts_with-append}
use ise_endpoint_portal.Condition.{
  Attr, Kind, and_block, or_block, Cond, Conds, attributes, block, reference, other_type, nil, cons,
  normalize_identity_group_value, identity_group_prefix, or_default,
}

-- one row of the flat editor
pub record CondRow : Type 0 where
  pub dict : Text
  pub attr : Text
  pub op : Text
  pub val : Text

-- `makeAttr`
abbrev pub make_attr : CondRow → Cond
make_attr r = attributes false (record {
  dictionary_name = r.dict;
  attribute_name = r.attr;
  operator = r.op;
  attribute_value = r.val;
})

abbrev pub make_attrs : List CondRow → Conds
make_attrs [] = nil
make_attrs (r ∷ rs) = cons (make_attr r) (make_attrs rs)

abbrev pub block_kind : Text → Kind
block_kind t = if t === codes "OR" then or_block else and_block

unfoldable pub build_condition : List CondRow → Text → Option Cond
build_condition [] block_type = none
build_condition (r ∷ []) block_type = some (make_attr r)
build_condition (r ∷ q ∷ rs) block_type =
    some (block (block_kind block_type) false (make_attrs (r ∷ q ∷ rs)))

-- a row from the fields of a condition, each with its default
abbrev pub row_of : Attr → CondRow
row_of a = record {
  dict = or_default (codes "EndPoints") a.dictionary_name;
  attr = a.attribute_name;
  op = or_default (codes "equals") a.operator;
  val = a.attribute_value;
}

unfoldable mutual
  pub flatten : Cond → List CondRow
  flatten (attributes negate a) = row_of a ∷ []
  flatten (block kind negate children) = flatten_all children
  flatten (reference name) = []
  flatten (other_type ct) = []

  pub flatten_all : Conds → List CondRow
  flatten_all nil = []
  flatten_all (cons c cs) = flatten c ++ flatten_all cs

-- `flattenConditionToRows`
unfoldable pub flatten_condition_to_rows : Option Cond → List CondRow
unfolding flatten flatten_all
flatten_condition_to_rows none = []
flatten_condition_to_rows (some c) = flatten c

-- A row has a dictionary and an operator.
abbrev pub IsFilled : CondRow → Type 0
IsFilled r = (truthy r.dict ≡ true) × (truthy r.op ≡ true)

or_default-truthy : (d s : Text) → truthy s ≡ true → or_default d s ≡ s
or_default-truthy d [] h = ground arith
or_default-truthy d (c ∷ s) h = refl

flatten-make_attr : (r : CondRow) → IsFilled r → flatten (make_attr r) ≡ r ∷ []
unfolding flatten
flatten-make_attr r (d, o) =
    rw (or_default-truthy (codes "EndPoints") r.dict d, or_default-truthy (codes "equals") r.op o)

flatten_all-split : (c : Cond) (cs : Conds) → flatten_all (cons c cs) ≡ flatten c ++ flatten_all cs
unfolding flatten_all
flatten_all-split c cs = refl

flatten_all-cons :
    (r : CondRow) (cs : Conds)
    → IsFilled r
    → flatten_all (cons (make_attr r) cs) ≡ r ∷ flatten_all cs
flatten_all-cons r cs h =
    flatten_all-split (make_attr r) cs ∙ ap (λ rs. rs ++ flatten_all cs) (flatten-make_attr r h)

flatten_all-make_attrs :
    (rows : List CondRow) → All IsFilled rows → flatten_all (make_attrs rows) ≡ rows
flatten_all-make_attrs [] h = unfold flatten_all in refl
flatten_all-make_attrs (r ∷ rows) (h, t) =
    flatten_all-cons r (make_attrs rows) h ∙ ap (◌∷◌ r) (flatten_all-make_attrs rows t)

-- The rows of the flat editor come back from the condition that is built of them, whatever the
-- type of the block, if each has a dictionary and an operator.
pub flatten-build_condition :
    (rows : List CondRow) (block_type : Text)
    → All IsFilled rows
    → flatten_condition_to_rows (build_condition rows block_type) ≡ rows
unfolding flatten_condition_to_rows build_condition
flatten-build_condition [] t h = refl
flatten-build_condition (r ∷ []) t (h, _) = flatten-make_attr r h
flatten-build_condition (r ∷ q ∷ rs) t h = flatten_all-make_attrs (r ∷ q ∷ rs) h

-- Completing the name of an identity group once more changes nothing.
normalize_identity_group_value_idem :
    (dict attr val : Text)
    → normalize_identity_group_value dict attr (normalize_identity_group_value dict attr val)
      ≡ normalize_identity_group_value dict attr val
unfolding normalize_identity_group_value
normalize_identity_group_value_idem dict attr val =
    ground (arith, starts_with-append identity_group_prefix val)
