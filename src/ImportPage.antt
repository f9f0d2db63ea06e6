-- ===== src/ImportPage.antt =====
-- frontend/js/views/import.js: the page that imports a CSV file. The preview parses the text, the
-- import sends the valid rows in one call.
pub mod Sent
mod Tests
use ise_endpoint_portal.Prelude.{
  ℕ, Bool, true, false, not, List, [], ◌∷◌, ◌++◌, Option, none, some, if◌then◌else◌, map, filter,
  length, ◌==◌, ◌-◌, any, ◌||◌,
}
use ise_endpoint_portal.Js.Dict.{Dict, lookup, put}
use ise_endpoint_portal.Js.Text.{
  Text, codes, ◌===◌, truthy, to_lower_case, to_upper_case, replace_all,
}
use ise_endpoint_portal.Csv.Import.{Item, Format, parse_csv}
use ise_endpoint_portal.Api.{Request}
use ise_endpoint_portal.Api.Endpoints.{bulk_create_endpoints, endpoint_request}

-- what `api.listGroups` brings of a group
pub record Group : Type 0 where
  pub id : Text
  pub name : Text

-- an element of the body of the call; no custom attributes where none is set
pub record NewEndpoint : Type 0 where
  pub mac : Text
  pub group_id : Text
  pub description : Text
  pub static_group_assignment : Option Bool
  pub custom_attributes : Dict Text

-- `new Map(groups.map((g) => [g.name.toLowerCase(), g.id]))`
abbrev pub groups_by_name_from : Dict Text → List Group → Dict Text
groups_by_name_from m [] = m
groups_by_name_from m (g ∷ gs) = groups_by_name_from (put (to_lower_case g.name) g.id m) gs

unfoldable pub groups_by_name : List Group → Dict Text
unfolding put to_lower_case
groups_by_name gs = groups_by_name_from [] gs

abbrev pub text_or_fallback : Text → Option Text → Text
text_or_fallback fallback none = fallback
text_or_fallback fallback (some id) = if truthy id then id else fallback

unfoldable pub group_id_of : Dict Text → Text → Text → Text
unfolding lookup to_lower_case
group_id_of by_name fallback name =
    if truthy name
    then text_or_fallback fallback (lookup (to_lower_case name) by_name)
    else fallback

abbrev pub attribute : Text → Text → Dict Text
attribute key v = if truthy v then (key, v) ∷ [] else []

abbrev pub custom_attributes_of : Item → Dict Text
custom_attributes_of p =
    attribute (codes "Type") p.endpoint_type
    ++ (attribute (codes "Owner") p.owner
        ++ (attribute (codes "Lokation") p.lokation
            ++ (attribute (codes "AuthzVlan") p.authz_vlan
                ++ (attribute (codes "AuthzACL") p.authz_acl
                    ++ attribute (codes "PlatformType") p.platform_type))))

-- `p.mac.toUpperCase().replace(/-/g, ":")`
unfoldable pub sent_mac : Text → Text
unfolding to_upper_case replace_all
sent_mac mac = replace_all b'-' (b':' ∷ []) (to_upper_case mac)

unfoldable pub new_endpoint : Dict Text → Text → Item → NewEndpoint
unfolding sent_mac group_id_of
new_endpoint by_name fallback p = record {
  mac = sent_mac p.mac;
  group_id = group_id_of by_name fallback p.group_name;
  description = p.description;
  static_group_assignment = p.static_group;
  custom_attributes = custom_attributes_of p;
}

abbrev pub is_valid : Item → Bool
is_valid p = p.valid

-- the items of a click on the import button
unfoldable pub import_items : List Group → Text → List Item → List NewEndpoint
unfolding new_endpoint groups_by_name
import_items groups fallback parsed =
    map (new_endpoint (groups_by_name groups) fallback) (filter is_valid parsed)

-- the checked radio button; the fallback is "skip"
abbrev pub is_overwrite : Option Text → Bool
is_overwrite none = false
is_overwrite (some v) = v === codes "overwrite"

-- the call of the click
unfoldable pub import_request :
    (Text → Text)
    → (ℕ → Text)
    → List Group
    → Text
    → Option Text
    → List Item
    → Request (List NewEndpoint)
unfolding import_items endpoint_request ◌===◌
import_request encode show groups fallback on_conflict parsed =
    endpoint_request encode show
      (bulk_create_endpoints (import_items groups fallback parsed) (is_overwrite on_conflict))

-- what the page says below the form
pub data Preview : Type 0 where
  no_preview no_rows : Preview
  rows : Format → (total valid invalid : ℕ) → (has_custom_attributes : Bool) → Preview

-- what the page says of an import; lists that a reply leaves out are empty
pub record Reply : Type 0 where
  pub succeeded : List Text
  pub overwritten : Option (List Text)
  pub skipped : Option (List Text)
  pub failed : List (Text × Text)

pub data Result : Type 0 where
  no_result : Result
  counts : (created overwritten skipped failed : ℕ) → Result
  failure : Text → Result

pub record Page : Type 0 where
  pub text : Text
  pub parsed : List Item
  pub preview : Preview
  pub result : Result
  pub import_disabled : Bool

abbrev pub initial : Page
initial = record {
  text = [];
  parsed = [];
  preview = no_preview;
  result = no_result;
  import_disabled = true;
}

abbrev pub valid_count : List Item → ℕ
valid_count items = length (filter is_valid items)

abbrev pub has_attributes : Item → Bool
has_attributes p =
    truthy p.endpoint_type
    || (truthy p.owner
        || (truthy p.lokation
            || (truthy p.authz_vlan || (truthy p.authz_acl || truthy p.platform_type))))

-- a file was chosen and read, or the user typed
unfoldable pub set_text : Text → Page → Page
set_text text page = record page { text = text }

-- the page after the preview of items
abbrev pub show_preview : Format → List Item → Page → Page
show_preview format [] page = record page {
  parsed = [];
  result = no_result;
  preview = no_rows;
  import_disabled = true;
}
show_preview format (p ∷ ps) page =
    let valid = valid_count (p ∷ ps) in
    record page {
      parsed = p ∷ ps;
      result = no_result;
      preview =
          rows format (length (p ∷ ps)) valid (length (p ∷ ps) - valid)
            (any has_attributes (p ∷ ps));
      import_disabled = valid == 0;
    }

-- the click on the preview button
unfoldable pub click_preview : Page → Page
unfolding parse_csv
click_preview page = show_preview (parse_csv page.text).0 (parse_csv page.text).1 page

abbrev pub length_or_none : Option (List Text) → ℕ
length_or_none none = 0
length_or_none (some xs) = length xs

-- what the call brings: an error with its message, or a reply
pub data BulkOutcome : Type 0 where
  threw : Text → BulkOutcome
  replied : Reply → BulkOutcome

abbrev pub result_of : BulkOutcome → Result
result_of (threw m) = failure m
result_of (replied r) =
    counts (length r.succeeded) (length_or_none r.overwritten) (length_or_none r.skipped)
      (length r.failed)

-- The click on the import button, up to the `finally` that enables it again; a disabled button
-- does nothing.
unfoldable pub click_import : BulkOutcome → Page → Page
click_import o page =
    if page.import_disabled
    then page
    else record page { result = result_of o; import_disabled = false }

pub data Event : Type 0 where
  text_set : Text → Event
  previews : Event
  imports : BulkOutcome → Event

unfoldable pub handle : Event → Page → Page
unfolding set_text click_preview click_import
handle (text_set text) page = set_text text page
handle previews page = click_preview page
handle (imports o) page = click_import o page

unfoldable pub handle_all : List Event → Page → Page
unfolding handle
handle_all [] page = page
handle_all (e ∷ es) page = handle_all es (handle e page)
