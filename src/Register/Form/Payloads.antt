-- ===== src/Register/Form/Payloads.antt =====
-- A payload is fit for its user.
use ise_endpoint_portal.Prelude.{
  ◌≡◌, refl, ap, ◌∙◌, ◌⊎◌, inl, inr, Bool, true, false, List, [], ◌∷◌, none, some, map, All,
  All-map, arith, Bool-cases,
}
use ise_endpoint_portal.Js.Dict.{lookup}
use ise_endpoint_portal.Js.Text.{Text, ◌===◌, codes, includes_text, join, or_empty}
use ise_endpoint_portal.Js.Text.Laws.{===_refl}
use ise_endpoint_portal.Csv.Mac.{mac_re}
use ise_endpoint_portal.ImportPage.Sent.{is_canonical_mac}
use ise_endpoint_portal.Register.Mac.{submitted_mac}
use ise_endpoint_portal.Register.Mac.Accepted.{mac_re-submitted_mac}
use ise_endpoint_portal.Register.Context.{
  Role, role_name, Context, attr_names, can_pick_roles, is_psk_editor, attr_options,
}
use ise_endpoint_portal.Register.Form.{Form, checked_roles, payload_of, Payload, registrant_of}
use ise_endpoint_portal.Register.Form.Lookups.{roles-cases}
use ise_endpoint_portal.Register.Form.Choices.{IsChosen, IsChoice}
use ise_endpoint_portal.Register.Form.Parts.{
  names-IsPlain, fit_attrs, psk_mode-IsNoLabel, psk_key-IsNoLabel, signed-payload_of,
  roles-payload_of, no_psk,
}

-- roles of the catalogue, joined by commas
abbrev pub AreOfCatalog : List Role → Text → Type 0
AreOfCatalog catalog v =
    (names : List Text) × (v ≡ join (codes ",") names)
    × All (λ n. includes_text (map role_name catalog) n ≡ true) names

-- what a payload of this user is
pub record IsFit (cx : Context) (p : Payload) : Type 0 where
  pub canonical : is_canonical_mac p.mac ≡ true
  pub group : IsChoice cx.group_ids p.group_id
  pub attrs :
      All (λ n. IsChoice (attr_options cx n) (or_empty (lookup n p.custom_attributes))) attr_names
  pub signed : or_empty (lookup (codes "RegistretBy") p.custom_attributes) ≡ registrant_of cx.me
  pub roles :
      (lookup (codes "HypervisionRoles") p.custom_attributes ≡ none)
      ⊎ ((can_pick_roles cx.me ≡ true)
          × ((v : Text) × (lookup (codes "HypervisionRoles") p.custom_attributes ≡ some v)
              × AreOfCatalog cx.catalog v))
  pub psk :
      ((lookup (codes "PSK_Mode") p.custom_attributes ≡ none)
        × (lookup (codes "PSK_Key") p.custom_attributes ≡ none))
      ⊎ (is_psk_editor cx.me ≡ true)

any_weaken :
    (x : Text) (r : Text) (xs : List Text)
    → includes_text xs x ≡ true
    → includes_text (r ∷ xs) x ≡ true
unfolding includes_text
any_weaken x r xs h = ground (arith, h)

includes-head : (x : Text) (xs : List Text) → includes_text (x ∷ xs) x ≡ true
unfolding includes_text
includes-head x xs = rw (===_refl x) refl

checked_roles-of_catalog :
    (catalog : List Role) (picked : List Bool)
    → All (λ n. includes_text (map role_name catalog) n ≡ true) (checked_roles catalog picked)
unfolding checked_roles
checked_roles-of_catalog [] picked = tt
checked_roles-of_catalog (r ∷ rs) [] = tt
checked_roles-of_catalog (r ∷ rs) (false ∷ bs) =
    All-map _ _ (λ n h. any_weaken n r.name (map role_name rs) h) (checked_roles rs bs)
      (checked_roles-of_catalog rs bs)
checked_roles-of_catalog (r ∷ rs) (true ∷ bs) = (
  includes-head r.name (map role_name rs),
  All-map _ _ (λ n h. any_weaken n r.name (map role_name rs) h) (checked_roles rs bs)
      (checked_roles-of_catalog rs bs),
)

module _ (cx : Context) (f : Form) where
  fit_roles :
      (lookup (codes "HypervisionRoles") (payload_of cx f).custom_attributes ≡ none)
      ⊎ ((can_pick_roles cx.me ≡ true)
          × ((v : Text) × (lookup (codes "HypervisionRoles") (payload_of cx f).custom_attributes
                ≡ some v)
              × AreOfCatalog cx.catalog v))
  fit_roles = elim (roles-cases cx f) [
    | inl e ↦ inl (roles-payload_of cx f ∙ e)
    | inr (h, e) ↦ inr (
      h,
      (
        join (codes ",") (checked_roles cx.catalog f.picked),
        roles-payload_of cx f ∙ e,
        (checked_roles cx.catalog f.picked, refl, checked_roles-of_catalog cx.catalog f.picked),
      ),
    )
  ]

  fit_psk :
      ((lookup (codes "PSK_Mode") (payload_of cx f).custom_attributes ≡ none)
        × (lookup (codes "PSK_Key") (payload_of cx f).custom_attributes ≡ none))
      ⊎ (is_psk_editor cx.me ≡ true)
  unfolding ◌===◌
  fit_psk = elim (Bool-cases (is_psk_editor cx.me)) [
    | inl e ↦ inr e
    | inr e ↦ inl (
      no_psk cx f (codes "PSK_Mode") e (psk_mode-IsNoLabel cx f) refl refl,
      no_psk cx f (codes "PSK_Key") e (psk_key-IsNoLabel cx f) refl refl,
    )
  ]

  mac-payload_of : (payload_of cx f).mac ≡ submitted_mac f.mac
  unfolding payload_of
  mac-payload_of = refl

  group-payload_of : (payload_of cx f).group_id ≡ f.group
  unfolding payload_of
  group-payload_of = refl

  canonical_mac :
      mac_re (submitted_mac f.mac) ≡ true → is_canonical_mac (submitted_mac f.mac) ≡ true
  canonical_mac h = elim (mac_re-submitted_mac f.mac).1 [ inl e ↦ absurd (cc (h, e)) | inr e ↦ e ]

  pub payload_of-IsFit :
      IsChosen cx f → mac_re (submitted_mac f.mac) ≡ true → IsFit cx (payload_of cx f)
  payload_of-IsFit h m = record {
    canonical = ap is_canonical_mac mac-payload_of ∙ canonical_mac m;
    group = rw group-payload_of h.group;
    attrs = fit_attrs cx f h attr_names names-IsPlain;
    signed = signed-payload_of cx f;
    roles = fit_roles;
    psk = fit_psk;
  }
