-- ===== src/Register/Context.antt =====
-- frontend/js/views/register.js: what the page loads first, and what the user may do with it.
use ise_endpoint_portal.Prelude.{
  Bool, false, ◌||◌, List, [], ◌∷◌, Option, none, some, map, filter, if◌then◌else◌,
}
use ise_endpoint_portal.Js.Dict.{Dict, lookup, put}
use ise_endpoint_portal.Js.Text.{Text, codes, ◌===◌, truthy, to_lower_case, includes_text}

-- `api.authMe`: no list of roles counts as an empty one
pub record Me : Type 0 where
  pub username : Text
  pub role : Text
  pub assigned_endpoint_roles : List Text

pub record Role : Type 0 where
  pub name : Text
  pub description : Text

abbrev pub role_name : Role → Text
role_name r = r.name

unfoldable pub is_assigned : List Text → Role → Bool
unfolding to_lower_case includes_text ◌===◌
is_assigned assigned r = includes_text (map to_lower_case assigned) (to_lower_case r.name)

-- the roles that the user may give
unfoldable pub role_catalog : Option Me → List Role → List Role
unfolding is_assigned ◌===◌
role_catalog none all_roles = all_roles
role_catalog (some me) all_roles =
    let own = filter (is_assigned me.assigned_endpoint_roles) all_roles in
    if me.role === codes "admin" then all_roles else own

unfoldable pub can_pick_roles : Option Me → Bool
unfolding ◌===◌
can_pick_roles none = false
can_pick_roles (some me) =
    me.role === codes "admin" || (me.role === codes "editor" || me.role === codes "editor-psk")

unfoldable pub is_psk_editor : Option Me → Bool
unfolding ◌===◌
is_psk_editor none = false
is_psk_editor (some me) = me.role === codes "admin" || me.role === codes "editor-psk"

-- the keys of `attrLabels`
abbrev pub attr_names : List Text
attr_names =
    codes "Type"
    ∷ codes "Owner"
    ∷ codes "Lokation"
    ∷ codes "AuthzVlan"
    ∷ codes "AuthzACL"
    ∷ codes "PlatformType"
    ∷ []

-- what the page knows after loading
pub record Context : Type 0 where
  pub is_registrant : Bool
  pub me : Option Me
  pub catalog : List Role
  pub group_ids : List Text
  pub attr_values : Dict (List Text)

-- `attrMap`: the attributes' values; those of AuthzACL are the names of the dACLs
abbrev pub attr_map_from : Dict (List Text) → Dict (List Text) → Dict (List Text)
attr_map_from m [] = m
attr_map_from m ((name, values) ∷ as') = attr_map_from (put name values m) as'

unfoldable pub attr_map :
    (sort : List Text → List Text) → Dict (List Text) → List Text → Dict (List Text)
unfolding put
attr_map sort attributes dacls =
    put (codes "AuthzACL") (sort (filter truthy dacls)) (attr_map_from [] attributes)

-- what the four calls bring; `none` is a call that fails, or roles that are no array
pub record Loaded : Type 0 where
  pub attributes : Option (Dict (List Text))
  pub dacls : Option (List Text)
  pub roles : Option (List Role)
  pub user : Option Me

abbrev pub or_nil {ℓ} : {A : Type ℓ} → Option (List A) → List A
or_nil none = []
or_nil (some xs) = xs

-- Without the attributes nothing of the four calls is kept.
unfoldable pub context_of : (sort : List Text → List Text) → Bool → List Text → Loaded → Context
unfolding attr_map role_catalog
context_of sort is_registrant group_ids l = elim l.attributes [
  | none ↦ record {
    is_registrant = is_registrant;
    me = none;
    catalog = [];
    group_ids = group_ids;
    attr_values = attr_map sort [] [];
  }
  | some attributes ↦ record {
    is_registrant = is_registrant;
    me = l.user;
    catalog = role_catalog l.user (or_nil l.roles);
    group_ids = group_ids;
    attr_values = attr_map sort attributes (or_nil l.dacls);
  }
]

-- the options of an attribute's select
unfoldable pub attr_options : Context → Text → List Text
unfolding lookup
attr_options cx name = or_nil (lookup name cx.attr_values)
