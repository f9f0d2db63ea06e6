-- ===== src/Bulk/Edit.antt =====
-- frontend/js/views/browse-bulk.js: the values of the bulk-edit window, put into the selected rows of the
-- table. A row is saved later, by an action of its own.
pub mod Applied
use ise_endpoint_portal.Prelude.{
  Bool, true, false, not, ◌||◌, List, [], ◌∷◌, ◌++◌, Option, none, some, if◌then◌else◌, map, filter,
  find?,
}
use ise_endpoint_portal.Js.Text.{Text, codes, ◌===◌, to_lower_case, includes_text}
use ise_endpoint_portal.Browse.Filter.Rows.{Row}

-- The values whose checkbox is set. For the roles that is all: the window is to have a chip to check for each
-- role (`.row-role-chip`), but `rolesChipsHtml` of browse-table.js draws none, so that the list of the
-- checked ones is always empty.
pub record Fields : Type 0 where
  pub group : Option Text
  pub static_group : Option Bool
  pub description : Option Text
  pub endpoint_type : Option Text
  pub owner : Option Text
  pub lokation : Option Text
  pub authz_vlan : Option Text
  pub authz_acl : Option Text
  pub platform_type : Option Text
  pub guest_reg : Option Text
  pub psk_mode : Option Bool
  pub psk_key : Option Text
  pub roles : Bool
  pub active_status : Option Text

pub data Badge : Type 0 where
  no_badge aktiv inaktiv : Badge

-- The inputs of a row with the class `desc-input`
pub data DescInput : Type 0 where
  description_input registret_by_input guest_expery_date_input : DescInput

-- A row of the table. What a row may lack, or has only after an edit, is an option; `roles_cell` are the
-- roles that are drawn, which are not saved.
pub record Drawn : Type 0 where
  pub id : Text
  pub group : Text
  pub assign_static : Option Bool
  pub be_static_group : Option Bool
  pub description : Text
  pub registret_by : Text
  pub guest_expery_date : Text
  pub endpoint_type : Text
  pub owner : Text
  pub lokation : Text
  pub authz_vlan : Text
  pub authz_acl : Text
  pub platform_type : Text
  pub guest_reg : Option Text
  pub psk_mode : Option Bool
  pub psk_key_cell : Option Text
  pub be_psk_key : Option Text
  pub roles_cell : Option (List Text)
  pub be_active_status : Option Text
  pub badge : Badge
  pub dirty : Bool

-- `if (k in fields) x = fields[k]`
abbrev pub given {ℓ} : {A : Type ℓ} → Option A → A → A
given none old = old
given (some v) old = v

-- the same for a part that the row may lack
abbrev pub given_part {ℓ} : {A : Type ℓ} → Option A → Option A → Option A
given_part new none = none
given_part none (some old) = some old
given_part (some v) (some old) = some v

-- the same for what an edit adds
abbrev pub given_also {ℓ} : {A : Type ℓ} → Option A → Option A → Option A
given_also none old = old
given_also (some v) old = some v

unfoldable pub in_catalog : List Text → Text → Bool
unfolding includes_text to_lower_case ◌===◌
in_catalog catalog r = includes_text (map to_lower_case catalog) (to_lower_case r)

-- The roles of a row that are not of the catalogue; those that were picked, behind them, are none.
unfoldable pub external_roles : List Text → List Text → List Text
unfolding in_catalog
external_roles catalog old = filter (λ r. not (in_catalog catalog r)) old

-- `row && row.roles || []` for the row with this id
unfoldable pub roles_of : List Row → Text → List Text
unfolding ◌===◌
roles_of all_rows id = elim (find? (λ r. r.id === id) all_rows) [ none ↦ [] | some r ↦ r.roles ]

unfoldable pub badge_of : Text → Badge
unfolding ◌===◌
badge_of v =
    if v === codes "Inaktiv" then inaktiv else if v === codes "Aktiv" then aktiv else no_badge

abbrev pub map_option {ℓ κ} : {A : Type ℓ} {B : Type κ} → (A → B) → Option A → Option B
map_option f none = none
map_option f (some a) = some (f a)

abbrev pub is_input : DescInput → DescInput → Bool
is_input description_input description_input = true
is_input registret_by_input registret_by_input = true
is_input guest_expery_date_input guest_expery_date_input = true
is_input _ _ = false

-- `tr.querySelector(".desc-input")` is the input that comes first in the order of the columns.
abbrev pub for_input : DescInput → DescInput → Option Text → Option Text
for_input first i new = if is_input first i then new else none

-- the roles that are drawn anew
abbrev pub new_roles : List Text → List Row → Fields → Text → Option (List Text)
new_roles catalog all_rows f id =
    if f.roles then some (external_roles catalog (roles_of all_rows id)) else none

-- One round of the loop, for a row that is drawn; `catalog` are the names of `state.roleCatalog`, and
-- `first` is the first of the inputs with the class `desc-input`.
unfoldable pub apply_fields : DescInput → List Text → List Row → Fields → Drawn → Drawn
unfolding external_roles roles_of badge_of
apply_fields first catalog all_rows f d = record {
  id = d.id;
  group = given f.group d.group;
  assign_static = given_part f.static_group d.assign_static;
  be_static_group = given_also f.static_group d.be_static_group;
  description = given (for_input first description_input f.description) d.description;
  registret_by = given (for_input first registret_by_input f.description) d.registret_by;
  guest_expery_date =
      given (for_input first guest_expery_date_input f.description) d.guest_expery_date;
  endpoint_type = given f.endpoint_type d.endpoint_type;
  owner = given f.owner d.owner;
  lokation = given f.lokation d.lokation;
  authz_vlan = given f.authz_vlan d.authz_vlan;
  authz_acl = given f.authz_acl d.authz_acl;
  platform_type = given f.platform_type d.platform_type;
  guest_reg = given_part f.guest_reg d.guest_reg;
  psk_mode = given_part f.psk_mode d.psk_mode;
  psk_key_cell = given_part f.psk_key d.psk_key_cell;
  be_psk_key = given_also f.psk_key d.be_psk_key;
  roles_cell = given_part (new_roles catalog all_rows f d.id) d.roles_cell;
  be_active_status = given_also f.active_status d.be_active_status;
  badge = given (map_option badge_of f.active_status) d.badge;
  dirty = true;
}

-- the row with this id, the first in the table, is changed
unfoldable pub change_row : Text → (Drawn → Drawn) → List Drawn → List Drawn
unfolding ◌===◌
change_row id g [] = []
change_row id g (d ∷ ds) =
    let rest = change_row id g ds in if d.id === id then g d ∷ ds else d ∷ rest

-- the loop over the selected ids
unfoldable pub apply_each : List Text → (Drawn → Drawn) → List Drawn → List Drawn
unfolding change_row
apply_each [] g ds = ds
apply_each (id ∷ ids) g ds = apply_each ids g (change_row id g ds)

abbrev is_given {ℓ} : {A : Type ℓ} → Option A → Bool
is_given none = false
is_given (some a) = true

-- `Object.keys(fields).length`
abbrev pub has_fields : Fields → Bool
has_fields f =
    is_given f.group
    || is_given f.static_group
    || is_given f.description
    || is_given f.endpoint_type
    || is_given f.owner
    || is_given f.lokation
    || is_given f.authz_vlan
    || is_given f.authz_acl
    || is_given f.platform_type
    || is_given f.guest_reg
    || is_given f.psk_mode
    || is_given f.psk_key
    || f.roles
    || is_given f.active_status

-- the handler of the apply button
unfoldable pub bulk_edit :
    DescInput → List Text → List Row → List Text → Fields → List Drawn → List Drawn
unfolding apply_each apply_fields
bulk_edit first catalog all_rows ids f ds =
    if has_fields f then apply_each ids (apply_fields first catalog all_rows f) ds else ds
