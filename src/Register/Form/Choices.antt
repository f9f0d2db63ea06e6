-- ===== src/Register/Form/Choices.antt =====
-- The selects of the form hold one of their options, whatever the user and the templates do.
use ise_endpoint_portal.Prelude.{
  ◌≡◌, refl, sym, ap, ◌⊎◌, inl, inr, true, List, [], ◌∷◌, Option, none, some, if◌then◌else◌, find?,
  Bool-cases,
}
use ise_endpoint_portal.Js.Dict.{Dict, lookup, lookup-put}
use ise_endpoint_portal.Js.Text.{Text, ◌===◌, codes, truthy, or_empty, includes_text}
use ise_endpoint_portal.Js.Text.Laws.{===_iff}
use ise_endpoint_portal.Register.Context.{Context, attr_names, attr_options, is_psk_editor}
use ise_endpoint_portal.Register.Form.{
  Form, Template, blank_form, select, attr_value, set_attr, set_group, apply_attrs, apply_psk,
  with_template, apply_template, Edit, types_mac, leaves_mac, picks_template, picks_group,
  picks_attr, checks_role, checks_psk_mode, types_psk_key, types_description, edit,
}

-- nothing is chosen, or one of the options
abbrev pub IsChoice : List Text → Text → Type 0
IsChoice options v = (v ≡ []) ⊎ (includes_text options v ≡ true)

abbrev AreChoices : Context → Dict Text → Type 0
AreChoices cx attrs = (n : Text) → IsChoice (attr_options cx n) (attr_value attrs n)

pub record IsChosen (cx : Context) (f : Form) : Type 0 where
  pub group : IsChoice cx.group_ids f.group
  pub attrs : (n : Text) → IsChoice (attr_options cx n) (attr_value f.attrs n)

select-IsChoice : (options : List Text) (v : Text) → IsChoice options (select options v)
unfolding select
select-IsChoice options v = elim (Bool-cases (includes_text options v)) [
  | inl e ↦ rw e (inr e)
  | inr e ↦ rw e (inl refl)
]

attr_value-put :
    (cx : Context) (name v n : Text) (attrs : Dict Text)
    → attr_value (set_attr cx name v attrs) n
      ≡ or_empty (if name === n then some (select (attr_options cx name) v) else lookup n attrs)
unfolding attr_value set_attr
attr_value-put cx name v n attrs =
    ap or_empty (lookup-put name n (select (attr_options cx name) v) attrs)

set_attr-AreChoices :
    (cx : Context) (name v : Text) (attrs : Dict Text)
    → AreChoices cx attrs
    → AreChoices cx (set_attr cx name v attrs)
set_attr-AreChoices cx name v attrs h n = elim (Bool-cases (name === n)) [
  | inl e ↦ rw (attr_value-put cx name v n attrs, e) (for_name n ((===_iff name n).0 e))
  | inr e ↦ rw (attr_value-put cx name v n attrs, e) (unfold attr_value in h n)
]
  where
    for_name :
        (m : Text) → name ≡ m → IsChoice (attr_options cx m) (select (attr_options cx name) v)
    for_name m e = rw (sym e) (select-IsChoice (attr_options cx name) v)

apply_attrs-AreChoices :
    (cx : Context) (ca : Dict Text) (names : List Text) (attrs : Dict Text)
    → AreChoices cx attrs
    → AreChoices cx (apply_attrs cx ca names attrs)
unfolding apply_attrs
apply_attrs-AreChoices cx ca [] attrs h = h
apply_attrs-AreChoices cx ca (name ∷ names) attrs h =
    elim (Bool-cases (truthy (attr_value ca name))) [
      | inl e ↦ rw e (
          apply_attrs-AreChoices cx ca names (set_attr cx name (attr_value ca name) attrs)
            (set_attr-AreChoices cx name (attr_value ca name) attrs h))
      | inr e ↦ rw e (apply_attrs-AreChoices cx ca names attrs h)
    ]

set_group-IsChosen :
    (cx : Context) (v : Text) (f : Form) → IsChosen cx f → IsChosen cx (set_group cx v f)
unfolding set_group
set_group-IsChosen cx v f h = record { group = select-IsChoice cx.group_ids v; attrs = h.attrs }

with_template-IsChosen :
    (cx : Context) (tpl : Template) (f : Form)
    → IsChosen cx f
    → IsChosen cx (with_template cx tpl f)
with_template-IsChosen cx tpl f h = record {
  group = group;
  attrs = apply_attrs-AreChoices cx tpl.custom_attributes attr_names f.attrs h.attrs;
}
  where
    group : IsChoice cx.group_ids (with_template cx tpl f).group
    group = elim (Bool-cases (truthy tpl.group_id)) [
      | inl e ↦ rw e (set_group-IsChosen cx tpl.group_id f h).group
      | inr e ↦ rw e h.group
    ]

apply_psk-IsChosen :
    (cx : Context) (mode prompted : Option Text) (f : Form)
    → IsChosen cx f
    → IsChosen cx (apply_psk cx mode prompted f)
unfolding apply_psk
apply_psk-IsChosen cx none prompted f h = h
apply_psk-IsChosen cx (some mode) prompted f h = elim (Bool-cases (is_psk_editor cx.me)) [
  | inl e ↦ rw e (record { group = h.group; attrs = h.attrs })
  | inr e ↦ rw e h
]

apply_template-IsChosen :
    (cx : Context) (tpls : List Template) (id : Text) (prompted : Option Text) (f : Form)
    → IsChosen cx f
    → IsChosen cx (apply_template cx tpls id prompted f)
unfolding apply_template
apply_template-IsChosen cx tpls id prompted f h = found (find? (λ tpl. tpl.id === id) tpls)
  where
    found :
        (o : Option Template)
        → IsChosen cx (elim o [
          | none ↦ f
          | some tpl ↦
              apply_psk cx
                (lookup (codes "PSK_Mode") tpl.custom_attributes)
                prompted
                (with_template cx tpl f)
        ])
    found none = h
    found (some tpl) =
        apply_psk-IsChosen cx (lookup (codes "PSK_Mode") tpl.custom_attributes) prompted
          (with_template cx tpl f) (with_template-IsChosen cx tpl f h)

pub edit-IsChosen :
    (cx : Context) (tpls : List Template) (e : Edit) (f : Form)
    → IsChosen cx f
    → IsChosen cx (edit cx tpls e f)
unfolding edit
edit-IsChosen cx tpls (types_mac s) f h = record { group = h.group; attrs = h.attrs }
edit-IsChosen cx tpls leaves_mac f h = record { group = h.group; attrs = h.attrs }
edit-IsChosen cx tpls (picks_template id prompted) f h =
    apply_template-IsChosen cx tpls id prompted _ (record { group = h.group; attrs = h.attrs })
edit-IsChosen cx tpls (picks_group v) f h = set_group-IsChosen cx v f h
edit-IsChosen cx tpls (picks_attr name v) f h = record {
  group = h.group;
  attrs = set_attr-AreChoices cx name v f.attrs h.attrs;
}
edit-IsChosen cx tpls (checks_role i b) f h = record { group = h.group; attrs = h.attrs }
edit-IsChosen cx tpls (checks_psk_mode b) f h = record { group = h.group; attrs = h.attrs }
edit-IsChosen cx tpls (types_psk_key s) f h = record { group = h.group; attrs = h.attrs }
edit-IsChosen cx tpls (types_description s) f h = record { group = h.group; attrs = h.attrs }

pub blank_form-IsChosen : (cx : Context) → IsChosen cx (blank_form cx)
unfolding blank_form attr_value lookup
blank_form-IsChosen cx = record { group = inl refl; attrs = λ n. inl refl }
