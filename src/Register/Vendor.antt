-- ===== src/Register/Vendor.antt =====
-- frontend/js/views/register.js: the vendor of a typed address, and the platform that it suggests.
use ise_endpoint_portal.Prelude.{
  Bool, true, false, not, ◌&&◌, ◌||◌, ◌≡◌, refl, sym, ap, ◌∙◌, List, [], ◌∷◌, Option, none, some,
  if◌then◌else◌, length, ltb,
}
use ise_endpoint_portal.Js.Dict.{Dict, lookup, lookup-put}
use ise_endpoint_portal.Js.Text.{Text, codes, ◌===◌, truthy, or_empty, trim, includes_text}
use ise_endpoint_portal.Js.Text.Laws.{===_refl}
use ise_endpoint_portal.ImportPage.Sent.{&&-split}
use ise_endpoint_portal.Register.Mac.{hex_digits}
use ise_endpoint_portal.Register.Context.{Context, attr_options}
use ise_endpoint_portal.Register.Form.{
  Form, Template, picks_attr, edit, select, set_attr, attr_value,
}

-- `VENDOR_TO_PLATFORM`
abbrev pub vendor_to_platform : Dict Text
vendor_to_platform =
    (codes "Cisco Systems Inc", codes "iosxe")
    ∷ (codes "Cisco-Linksys", codes "iosxe")
    ∷ (codes "Cisco Meraki", codes "meraki")
    ∷ (codes "Aruba Networks", codes "aruba")
    ∷ (codes "Espressif Inc (ESP32)", codes "esp32")
    ∷ (codes "Raspberry Pi Foundation", codes "linux")
    ∷ (codes "Raspberry Pi Trading", codes "linux")
    ∷ (codes "Apple Inc", codes "macos")
    ∷ (codes "Samsung Electronics", codes "android")
    ∷ (codes "Microsoft Corp", codes "windows")
    ∷ (codes "HP Inc", codes "printer")
    ∷ (codes "Canon Inc", codes "printer")
    ∷ (codes "AXIS Communications", codes "ipcam")
    ∷ []

-- what the page says below the address; a platform that is offered has a button
pub data Vendor : Type 0 where
  hidden unknown : Vendor
  known : (vendor : Text) → Option Text → Vendor

unfoldable pub offered_platform : Context → Text → Option Text
unfolding lookup includes_text ◌===◌ attr_options
offered_platform cx vendor =
    let platform = or_empty (lookup vendor vendor_to_platform) in
    if truthy platform && includes_text (attr_options cx (codes "PlatformType")) platform
    then some platform
    else none

-- `lookupVendor`; `reply` is the vendor that `api.lookupOui` brings, `none` if it throws
unfoldable pub lookup_vendor : Context → Text → Option Text → Vendor
unfolding trim hex_digits offered_platform
lookup_vendor cx value reply =
    let found : Vendor = elim reply [
      | none ↦ hidden
      | some v ↦ if truthy v then known v (offered_platform cx v) else unknown
    ] in
    if not (truthy (trim value)) || ltb (length (hex_digits (trim value))) 6 then hidden else found

-- the button
unfoldable pub apply_platform : Context → List Template → Text → Form → Form
unfolding edit
apply_platform cx tpls platform f = edit cx tpls (picks_attr (codes "PlatformType") platform) f

some-injective : (a b : Text) → some a ≡ some b → a ≡ b
some-injective a b e = ap or_empty e

offered_if :
    (b : Bool) (v platform : Text)
    → (if b then some v else none) ≡ some platform
    → (b ≡ true) × (v ≡ platform)
offered_if true v platform e = (refl, some-injective v platform e)
offered_if false v platform e = absurd (cc e)

-- A platform that is offered is an option of its select.
offered_platform-is_option :
    (cx : Context) (vendor platform : Text)
    → offered_platform cx vendor ≡ some platform
    → includes_text (attr_options cx (codes "PlatformType")) platform ≡ true
unfolding offered_platform
offered_platform-is_option cx vendor platform e =
    let (h, v) = offered_if _ _ platform e in rw (sym v) (&&-split _ _ h).1

attr_value-set_attr :
    (cx : Context) (name v : Text) (attrs : Dict Text)
    → includes_text (attr_options cx name) v ≡ true
    → attr_value (set_attr cx name v attrs) name ≡ v
unfolding attr_value set_attr select
attr_value-set_attr cx name v attrs h =
    ap or_empty (lookup-put name name (select (attr_options cx name) v) attrs)
    ∙ rw (===_refl name, h) refl

attrs-apply_platform :
    (cx : Context) (tpls : List Template) (v : Text) (f : Form)
    → (apply_platform cx tpls v f).attrs ≡ set_attr cx (codes "PlatformType") v f.attrs
unfolding apply_platform edit
attrs-apply_platform cx tpls v f = refl

-- The button of a platform that is offered sets it.
apply_platform-offered :
    (cx : Context) (tpls : List Template) (vendor platform : Text) (f : Form)
    → offered_platform cx vendor ≡ some platform
    → attr_value (apply_platform cx tpls platform f).attrs (codes "PlatformType") ≡ platform
apply_platform-offered cx tpls vendor platform f e = rw (attrs-apply_platform cx tpls platform f) (
    attr_value-set_attr cx (codes "PlatformType") platform f.attrs
      (offered_platform-is_option cx vendor platform e))
