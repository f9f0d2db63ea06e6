-- ===== src/Register/Form.antt =====
-- frontend/js/views/register.js: the form, its templates, and the payload that it makes.
pub mod Choices
pub mod Lookups
pub mod Parts
pub mod Payloads
use ise_endpoint_portal.Prelude.{
  ℕ, Bool, true, false, ◌&&◌, List, [], ◌∷◌, ◌++◌, Option, none, some, if◌then◌else◌, map, find?,
  set,
}
use ise_endpoint_portal.Js.Dict.{Dict, lookup, put}
use ise_endpoint_portal.Js.Text.{
  Text, codes, ◌===◌, truthy, or_empty, trim, to_lower_case, to_upper_case, includes_text, join,
}
use ise_endpoint_portal.Register.Mac.{normalise_mac, submitted_mac}
use ise_endpoint_portal.Register.Context.{
  Me, Role, Context, attr_names, attr_options, can_pick_roles, is_psk_editor,
}

-- `picked` are the checkboxes of the roles, in the order of the catalogue
pub record Form : Type 0 where
  pub template : Text
  pub mac : Text
  pub group : Text
  pub attrs : Dict Text
  pub picked : List Bool
  pub psk_mode : Bool
  pub psk_key : Text
  pub description : Text

pub record Template : Type 0 where
  pub id : Text
  pub name : Text
  pub group_id : Text
  pub custom_attributes : Dict Text

unfoldable pub is_own_role : Option Me → Role → Bool
unfolding to_lower_case ◌===◌
is_own_role none r = false
is_own_role (some me) r =
    truthy (to_lower_case me.username) && to_lower_case r.name === to_lower_case me.username

-- the form as it is drawn, and as `reset` leaves it
unfoldable pub blank_form : Context → Form
unfolding is_own_role
blank_form cx = record {
  template = [];
  mac = [];
  group = [];
  attrs = [];
  picked = map (is_own_role cx.me) cx.catalog;
  psk_mode = false;
  psk_key = [];
  description = [];
}

-- the value of a select after `select.value = v`: none of its options has the value `""` but the first
unfoldable pub select : List Text → Text → Text
unfolding includes_text ◌===◌
select options v = if includes_text options v then v else []

unfoldable pub attr_value : Dict Text → Text → Text
unfolding lookup
attr_value attrs name = or_empty (lookup name attrs)

unfoldable pub set_attr : Context → Text → Text → Dict Text → Dict Text
unfolding put select attr_options
set_attr cx name v attrs = put name (select (attr_options cx name) v) attrs

unfoldable pub set_group : Context → Text → Form → Form
unfolding select
set_group cx v f = record f { group = select cx.group_ids v }

-- the loop of `applyTemplate` over the attributes
unfoldable pub apply_attrs : Context → Dict Text → List Text → Dict Text → Dict Text
unfolding set_attr attr_value
apply_attrs cx ca [] attrs = attrs
apply_attrs cx ca (name ∷ names) attrs =
    let v = attr_value ca name in
    apply_attrs cx ca names (if truthy v then set_attr cx name v attrs else attrs)

abbrev pub text_or : Text → Option Text → Text
text_or d none = d
text_or d (some s) = s

-- the key's part of `applyTemplate`; `prompted` is the answer to the prompt, `none` if it is cancelled
unfoldable pub apply_psk : Context → Option Text → Option Text → Form → Form
unfolding is_psk_editor ◌===◌
apply_psk cx none prompted f = f
apply_psk cx (some mode) prompted f =
    let on = mode === codes "true" in
    if is_psk_editor cx.me
    then record f { psk_mode = on; psk_key = if on then text_or f.psk_key prompted else f.psk_key }
    else f

-- the fields that `applyTemplate` sets before the key's
abbrev pub with_template : Context → Template → Form → Form
with_template cx tpl f =
    let g = if truthy tpl.group_id then set_group cx tpl.group_id f else f in
    record g {
      description = codes "Templet " ++ tpl.name;
      attrs = apply_attrs cx tpl.custom_attributes attr_names f.attrs;
    }

-- `applyTemplate`
unfoldable pub apply_template : Context → List Template → Text → Option Text → Form → Form
unfolding set_group apply_attrs apply_psk ◌===◌ lookup
apply_template cx templates id prompted f = elim (find? (λ tpl. tpl.id === id) templates) [
  | none ↦ f
  | some tpl ↦
      apply_psk cx (lookup (codes "PSK_Mode") tpl.custom_attributes) prompted
        (with_template cx tpl f)
]

-- what the user does to the fields; a key is typed or generated, an address typed or scanned
pub data Edit : Type 0 where
  types_mac : Text → Edit
  leaves_mac : Edit
  picks_template : Text → Option Text → Edit
  picks_group : Text → Edit
  picks_attr : Text → Text → Edit
  checks_role : ℕ → Bool → Edit
  checks_psk_mode : Bool → Edit
  types_psk_key : Text → Edit
  types_description : Text → Edit

unfoldable pub edit : Context → List Template → Edit → Form → Form
unfolding to_upper_case normalise_mac apply_template set_group set_attr select
edit cx tpls (types_mac s) f = record f { mac = to_upper_case s }
edit cx tpls leaves_mac f = record f { mac = normalise_mac f.mac }
edit cx tpls (picks_template id prompted) f =
    apply_template cx tpls id prompted
      (record f { template = select (map (λ tpl. tpl.id) tpls) id })
edit cx tpls (picks_group v) f = set_group cx v f
edit cx tpls (picks_attr name v) f = record f { attrs = set_attr cx name v f.attrs }
edit cx tpls (checks_role i b) f = record f { picked = set f.picked i b }
edit cx tpls (checks_psk_mode b) f = record f { psk_mode = b }
edit cx tpls (types_psk_key s) f = record f { psk_key = s }
edit cx tpls (types_description s) f = record f { description = s }

-- the body of the call; no custom attributes where none is set
pub record Payload : Type 0 where
  pub mac : Text
  pub group_id : Text
  pub description : Text
  pub custom_attributes : Dict Text

-- the body of the call that saves a template
pub record NewTemplate : Type 0 where
  pub name : Text
  pub group_id : Text
  pub description : Text
  pub custom_attributes : Dict Text

abbrev pub attribute : Text → Text → Dict Text
attribute key v = if truthy v then (key, v) ∷ [] else []

-- the selects that have a value
unfoldable pub chosen_attrs : Dict Text → List Text → Dict Text
unfolding attr_value
chosen_attrs attrs [] = []
chosen_attrs attrs (name ∷ names) =
    attribute name (attr_value attrs name) ++ chosen_attrs attrs names

abbrev pub registrant_of : Option Me → Text
registrant_of none = []
registrant_of (some me) = me.username

-- the names of the roles that are checked
unfoldable pub checked_roles : List Role → List Bool → List Text
checked_roles (r ∷ rs) (b ∷ bs) =
    let rest = checked_roles rs bs in if b then r.name ∷ rest else rest
checked_roles _ _ = []

unfoldable pub roles_attr : Context → List Bool → Dict Text
unfolding checked_roles can_pick_roles join
roles_attr cx picked =
    if can_pick_roles cx.me
    then elim (checked_roles cx.catalog picked) [
      | [] ↦ []
      | n ∷ ns ↦ (codes "HypervisionRoles", join (codes ",") (n ∷ ns)) ∷ []
    ]
    else []

abbrev pub psk_mode_attr : Context → Form → Dict Text
psk_mode_attr cx f =
    if is_psk_editor cx.me
    then (codes "PSK_Mode", if f.psk_mode then codes "true" else codes "false") ∷ []
    else []

unfoldable pub psk_attrs : Context → Form → Dict Text
unfolding is_psk_editor trim
psk_attrs cx f =
    if is_psk_editor cx.me
    then (codes "PSK_Mode", if f.psk_mode then codes "true" else codes "false")
      ∷ attribute (codes "PSK_Key") (trim f.psk_key)
    else []

unfoldable pub payload_of : Context → Form → Payload
unfolding submitted_mac trim chosen_attrs roles_attr psk_attrs
payload_of cx f = record {
  mac = submitted_mac f.mac;
  group_id = f.group;
  description = trim f.description;
  custom_attributes =
      chosen_attrs f.attrs attr_names
      ++ (attribute (codes "RegistretBy") (registrant_of cx.me)
          ++ (roles_attr cx f.picked ++ psk_attrs cx f));
}

-- the body of the call that saves the form as a template, once its name is given
unfoldable pub template_payload : Context → Text → Form → Option NewTemplate
unfolding chosen_attrs is_psk_editor trim
template_payload cx name f =
    if truthy (trim name)
    then some (record {
      name = trim name;
      group_id = f.group;
      description = trim f.description;
      custom_attributes = chosen_attrs f.attrs attr_names ++ psk_mode_attr cx f;
    })
    else none
