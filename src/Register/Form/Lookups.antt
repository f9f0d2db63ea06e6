-- ===== src/Register/Form/Lookups.antt =====
-- The attributes of a payload, looked up.
use ise_endpoint_portal.Prelude.{
  ◌≡◌, refl, ap, ◌∙◌, ◌⊎◌, inl, inr, Bool, true, false, List, [], ◌∷◌, ◌++◌, Option, none, some,
  if◌then◌else◌, All, Bool-cases,
}
use ise_endpoint_portal.Js.Dict.{Dict, lookup, lookup-append}
use ise_endpoint_portal.Js.Text.{Text, ◌===◌, codes, truthy, or_empty, includes_text, join, trim}
use ise_endpoint_portal.Js.Text.Laws.{===_iff, ===_refl}
use ise_endpoint_portal.Register.Context.{Context, attr_names, can_pick_roles, is_psk_editor}
use ise_endpoint_portal.Register.Form.{
  Form, attribute, attr_value, chosen_attrs, registrant_of, checked_roles, roles_attr, psk_attrs,
  payload_of,
}

abbrev pub or_else : Option Text → Option Text → Option Text
or_else o p = elim o [ none ↦ p | some v ↦ some v ]

pub lookup-attribute :
    (k j v : Text)
    → lookup k (attribute j v) ≡ (if truthy v then (if j === k then some v else none) else none)
unfolding lookup
lookup-attribute k j [] = refl
lookup-attribute k j (c ∷ v) = refl

pub attribute-absent : (k j v : Text) → (j === k) ≡ false → lookup k (attribute j v) ≡ none
attribute-absent k j [] h = lookup-attribute k j []
attribute-absent k j (c ∷ v) h = lookup-attribute k j (c ∷ v) ∙ rw h refl

chosen_attrs-absent :
    (k : Text) (attrs : Dict Text) (names : List Text)
    → All (λ n. (n === k) ≡ false) names
    → lookup k (chosen_attrs attrs names) ≡ none
unfolding chosen_attrs
chosen_attrs-absent k attrs [] h = unfold lookup in refl
chosen_attrs-absent k attrs (n ∷ names) (h, t) =
    lookup-append k (attribute n (attr_value attrs n)) (chosen_attrs attrs names)
    ∙ rw (attribute-absent k n (attr_value attrs n) h) (chosen_attrs-absent k attrs names t)

pub head_attribute :
    (k n v : Text) (later : Option Text)
    → (n === k) ≡ true
    → or_empty (or_else (lookup k (attribute n v)) later) ≡ (if truthy v then v else or_empty later)
head_attribute k n [] later h = rw (lookup-attribute k n []) refl
head_attribute k n (c ∷ v) later h = rw (lookup-attribute k n (c ∷ v), h) refl

or_itself : (b : Bool) (w : Text) → (if truthy w then w else if b then w else []) ≡ w
or_itself true [] = refl
or_itself false [] = refl
or_itself b (c ∷ w) = refl

-- a select's attribute, among those that have a value
pub chosen_attrs-lookup :
    (k : Text) (attrs : Dict Text) (names : List Text)
    → or_empty (lookup k (chosen_attrs attrs names))
      ≡ (if includes_text names k then attr_value attrs k else [])
unfolding chosen_attrs includes_text
chosen_attrs-lookup k attrs [] = unfold lookup in refl
chosen_attrs-lookup k attrs (n ∷ names) = elim (Bool-cases (n === k)) [
  | inl e ↦
      rw
        (
          lookup-append k (attribute n (attr_value attrs n)) (chosen_attrs attrs names),
          head_attribute k n (attr_value attrs n) (lookup k (chosen_attrs attrs names)) e,
          chosen_attrs-lookup k attrs names,
          (===_iff n k).0 e,
          ===_refl k,
        )
        (or_itself (includes_text names k) (attr_value attrs k))
  | inr e ↦
      rw
        (
          lookup-append k (attribute n (attr_value attrs n)) (chosen_attrs attrs names),
          attribute-absent k n (attr_value attrs n) e,
          e,
        )
        (chosen_attrs-lookup k attrs names)
]

-- the parts of the attributes
module _ (cx : Context) (f : Form) where
  abbrev pub labels : Dict Text
  labels = chosen_attrs f.attrs attr_names

  abbrev pub signature : Dict Text
  signature = attribute (codes "RegistretBy") (registrant_of cx.me)

  abbrev after_signature : Dict Text
  after_signature = roles_attr cx f.picked ++ psk_attrs cx f

  attributes-payload_of :
      (payload_of cx f).custom_attributes ≡ labels ++ (signature ++ after_signature)
  unfolding payload_of
  attributes-payload_of = refl

  pub lookup-payload_of :
      (k : Text)
      → lookup k (payload_of cx f).custom_attributes
        ≡ or_else (lookup k labels) (
            or_else
              (lookup k signature)
              (or_else (lookup k (roles_attr cx f.picked)) (lookup k (psk_attrs cx f))))
  lookup-payload_of k =
      ap (lookup k) attributes-payload_of
      ∙ lookup-append k labels (signature ++ after_signature)
      ∙ ap (or_else (lookup k labels)) (
          lookup-append k signature after_signature
          ∙ ap (or_else (lookup k signature))
              (lookup-append k (roles_attr cx f.picked) (psk_attrs cx f)))

  pub no_label : (k : Text) → All (λ n. (n === k) ≡ false) attr_names → lookup k labels ≡ none
  no_label k h = chosen_attrs-absent k f.attrs attr_names h

  pub roles-absent :
      (k : Text)
      → (codes "HypervisionRoles" === k) ≡ false
      → lookup k (roles_attr cx f.picked) ≡ none
  unfolding roles_attr
  roles-absent k h = elim (Bool-cases (can_pick_roles cx.me)) [
    | inr e ↦ unfold lookup in rw e refl
    | inl e ↦ rw e (no_names (checked_roles cx.catalog f.picked))
  ]
    where
      no_names :
          (ns : List Text)
          → lookup k (elim ns [
            | [] ↦ []
            | m ∷ ms ↦ (codes "HypervisionRoles", join (codes ",") (m ∷ ms)) ∷ []
          ])
            ≡ none
      no_names [] = unfold lookup in refl
      no_names (m ∷ ms) = unfold lookup in rw h refl

  pub psk-absent :
      (k : Text)
      → (codes "PSK_Mode" === k) ≡ false
      → (codes "PSK_Key" === k) ≡ false
      → lookup k (psk_attrs cx f) ≡ none
  unfolding psk_attrs
  psk-absent k h g = elim (Bool-cases (is_psk_editor cx.me)) [
    | inr e ↦ unfold lookup in rw e refl
    | inl e ↦ rw e (
        unfold lookup in
        rw h (unfold lookup in attribute-absent k (codes "PSK_Key") (trim f.psk_key) g))
  ]

  pub psk-absent_for_others :
      (k : Text) → is_psk_editor cx.me ≡ false → lookup k (psk_attrs cx f) ≡ none
  unfolding psk_attrs lookup
  psk-absent_for_others k h = rw h refl

  pub roles-cases :
      (lookup (codes "HypervisionRoles") (roles_attr cx f.picked) ≡ none)
      ⊎ ((can_pick_roles cx.me ≡ true)
          × (lookup (codes "HypervisionRoles") (roles_attr cx f.picked)
              ≡ some (join (codes ",") (checked_roles cx.catalog f.picked))))
  unfolding roles_attr
  roles-cases = elim (Bool-cases (can_pick_roles cx.me)) [
    | inr e ↦ inl (unfold lookup in rw e refl)
    | inl e ↦ rw e (names (checked_roles cx.catalog f.picked))
  ]
    where
      names :
          (ns : List Text)
          → (lookup (codes "HypervisionRoles") (elim ns [
            | [] ↦ []
            | m ∷ ms ↦ (codes "HypervisionRoles", join (codes ",") (m ∷ ms)) ∷ []
          ])
              ≡ none)
            ⊎ ((true ≡ true)
                × (lookup (codes "HypervisionRoles") (elim ns [
                  | [] ↦ []
                  | m ∷ ms ↦ (codes "HypervisionRoles", join (codes ",") (m ∷ ms)) ∷ []
                ])
                    ≡ some (join (codes ",") ns)))
      names [] = inl (unfold lookup in refl)
      names (m ∷ ms) = inr (refl, unfold lookup ◌===◌ in refl)
