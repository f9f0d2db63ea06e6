-- ===== src/Register/Form/Parts.antt =====
-- The attributes of a payload, by the user and the form that it is made from.
use ise_endpoint_portal.Prelude.{
  ◌≡◌, refl, ap, ◌∙◌, ◌⊎◌, inl, inr, true, false, List, [], ◌∷◌, Option, none, some, if◌then◌else◌,
  All,
}
use ise_endpoint_portal.Js.Dict.{lookup}
use ise_endpoint_portal.Js.Text.{Text, ◌===◌, codes, truthy, or_empty, includes_text}
use ise_endpoint_portal.Js.Text.Laws.{===_refl}
use ise_endpoint_portal.Register.Context.{Context, attr_names, attr_options, is_psk_editor}
use ise_endpoint_portal.Register.Form.{
  Form, attr_value, registrant_of, roles_attr, psk_attrs, payload_of,
}
use ise_endpoint_portal.Register.Form.Lookups.{
  or_else, head_attribute, chosen_attrs-lookup, no_label, lookup-payload_of, roles-absent,
  psk-absent, psk-absent_for_others, attribute-absent, labels, signature,
}
use ise_endpoint_portal.Register.Form.Choices.{IsChoice, IsChosen}

-- a name of a select, apart from the other attributes
abbrev IsPlain : Text → Type 0
IsPlain n =
    (includes_text attr_names n ≡ true)
    × ((codes "RegistretBy" === n) ≡ false)
    × ((codes "HypervisionRoles" === n) ≡ false)
    × ((codes "PSK_Mode" === n) ≡ false)
    × ((codes "PSK_Key" === n) ≡ false)

pub names-IsPlain : All IsPlain attr_names
unfolding includes_text ◌===◌
names-IsPlain = (
  (refl, refl, refl, refl, refl),
  (
    (refl, refl, refl, refl, refl),
    (
      (refl, refl, refl, refl, refl),
      (
        (refl, refl, refl, refl, refl),
        ((refl, refl, refl, refl, refl), ((refl, refl, refl, refl, refl), tt)),
      ),
    ),
  ),
)

or_else-none : (o : Option Text) → or_else o none ≡ o
or_else-none none = refl
or_else-none (some v) = refl

-- a text as no label of a select is spelled
abbrev IsNoLabel : Text → Type 0
IsNoLabel k = All (λ n. (n === k) ≡ false) attr_names

module _ (cx : Context) (f : Form) where
  label-payload_of :
      (n : Text)
      → IsPlain n
      → or_empty (lookup n (payload_of cx f).custom_attributes) ≡ attr_value f.attrs n
  label-payload_of n (h, r, t, m, k) =
      ap or_empty {y = lookup n (labels cx f)} (
        lookup-payload_of cx f n
        ∙ rw
            (
              attribute-absent n (codes "RegistretBy") (registrant_of cx.me) r,
              roles-absent cx f n t,
              psk-absent cx f n m k,
              or_else-none (lookup n (labels cx f)),
            )
            refl)
      ∙ chosen_attrs-lookup n f.attrs attr_names
      ∙ rw h refl

  pub fit_attrs :
      IsChosen cx f
      → (names : List Text) → All IsPlain names
      → All
          (λ n.
            IsChoice (attr_options cx n) (or_empty (lookup n (payload_of cx f).custom_attributes)))
          names
  fit_attrs h [] k = tt
  fit_attrs h (n ∷ names) (k, t) = (rw (label-payload_of n k) (h.attrs n), fit_attrs h names t)

  registrant-IsNoLabel : IsNoLabel (codes "RegistretBy")
  unfolding ◌===◌
  registrant-IsNoLabel = (refl, (refl, (refl, (refl, (refl, (refl, tt))))))

  roles-IsNoLabel : IsNoLabel (codes "HypervisionRoles")
  unfolding ◌===◌
  roles-IsNoLabel = (refl, (refl, (refl, (refl, (refl, (refl, tt))))))

  pub psk_mode-IsNoLabel : IsNoLabel (codes "PSK_Mode")
  unfolding ◌===◌
  psk_mode-IsNoLabel = (refl, (refl, (refl, (refl, (refl, (refl, tt))))))

  pub psk_key-IsNoLabel : IsNoLabel (codes "PSK_Key")
  unfolding ◌===◌
  psk_key-IsNoLabel = (refl, (refl, (refl, (refl, (refl, (refl, tt))))))

  differ : (codes "HypervisionRoles" === codes "RegistretBy") ≡ false
  unfolding ◌===◌
  differ = refl

  psk_differ :
      (k : Text)
      → (k ≡ codes "RegistretBy") ⊎ (k ≡ codes "HypervisionRoles")
      → lookup k (psk_attrs cx f) ≡ none
  unfolding ◌===◌
  psk_differ k (inl e) = rw e (psk-absent cx f (codes "RegistretBy") refl refl)
  psk_differ k (inr e) = rw e (psk-absent cx f (codes "HypervisionRoles") refl refl)

  signature-absent :
      (k : Text) → (codes "RegistretBy" === k) ≡ false → lookup k (signature cx f) ≡ none
  signature-absent k h = attribute-absent k (codes "RegistretBy") (registrant_of cx.me) h

  truthy_or_nil : (u : Text) → (if truthy u then u else []) ≡ u
  truthy_or_nil [] = refl
  truthy_or_nil (c ∷ u) = refl

  pub signed-payload_of :
      or_empty (lookup (codes "RegistretBy") (payload_of cx f).custom_attributes)
      ≡ registrant_of cx.me
  signed-payload_of =
      ap or_empty {y = or_else (lookup (codes "RegistretBy") (signature cx f)) none} (
        lookup-payload_of cx f (codes "RegistretBy")
        ∙ rw
            (
              no_label cx f (codes "RegistretBy") registrant-IsNoLabel,
              roles-absent cx f (codes "RegistretBy") differ,
              psk_differ (codes "RegistretBy") (inl refl),
            )
            refl)
      ∙ head_attribute (codes "RegistretBy") (codes "RegistretBy") (registrant_of cx.me) none
          (===_refl (codes "RegistretBy"))
      ∙ truthy_or_nil (registrant_of cx.me)

  signature_no_roles : (codes "RegistretBy" === codes "HypervisionRoles") ≡ false
  unfolding ◌===◌
  signature_no_roles = refl

  pub roles-payload_of :
      lookup (codes "HypervisionRoles") (payload_of cx f).custom_attributes
      ≡ lookup (codes "HypervisionRoles") (roles_attr cx f.picked)
  roles-payload_of =
      lookup-payload_of cx f (codes "HypervisionRoles")
      ∙ rw
          (
            no_label cx f (codes "HypervisionRoles") roles-IsNoLabel,
            signature-absent (codes "HypervisionRoles") signature_no_roles,
            psk_differ (codes "HypervisionRoles") (inr refl),
            or_else-none (lookup (codes "HypervisionRoles") (roles_attr cx f.picked)),
          )
          refl

  pub no_psk :
      (k : Text)
      → is_psk_editor cx.me ≡ false
      → IsNoLabel k
      → (codes "RegistretBy" === k) ≡ false
      → (codes "HypervisionRoles" === k) ≡ false
      → lookup k (payload_of cx f).custom_attributes ≡ none
  no_psk k h l r t =
      lookup-payload_of cx f k
      ∙ rw
          (
            no_label cx f k l,
            signature-absent k r,
            roles-absent cx f k t,
            psk-absent_for_others cx f k h,
          )
          refl
