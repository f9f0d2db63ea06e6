-- ===== src/Bulk/Radius/Templates.antt =====
-- A template gives back the attributes that it was saved with.
use ise_endpoint_portal.Prelude.{
  ◌≡◌, refl, sym, ap, ◌∙◌, inl, inr, Bool, true, false, ◌&&◌, List, [], ◌∷◌, ◌++◌, some,
  if◌then◌else◌, find?, any, All, Bool-cases, arith, All-append,
}
use mathlib.Core.List.{append-nil, append_assoc}
use ise_endpoint_portal.Js.Dict.{Dict, put}
use ise_endpoint_portal.Js.Storage.{value}
use ise_endpoint_portal.Js.Text.{Text, ◌===◌, truthy, trim}
use ise_endpoint_portal.Js.Text.Laws.{===_refl, trim_idem}
use ise_endpoint_portal.Bulk.Radius.{
  Template, Window, load_tpls, read_from, read_radius_attrs, render_select, load_click, save_click,
  select_click,
}

-- an attribute as it is read: trimmed, and not empty
abbrev IsRead : Text × Text → Type 0
IsRead e = (trim e.0 ≡ e.0) × (truthy e.0 ≡ true) × (trim e.1 ≡ e.1) × (truthy e.1 ≡ true)

abbrev IsOther : Text → Text × Text → Type 0
IsOther k e = (k === e.0) ≡ false

-- attributes as they are read: each key once
abbrev AreRead : Dict Text → Type 0
AreRead [] = Unit
AreRead (e ∷ m) = (IsRead e × All (IsOther e.0) m) × AreRead m

put-IsOther :
    (k j v : Text) (m : Dict Text)
    → (k === j) ≡ false
    → All (IsOther k) m
    → All (IsOther k) (put j v m)
unfolding put
put-IsOther k j v [] h t = (h, tt)
put-IsOther k j v ((i, w) ∷ m) h (a, t) = elim (Bool-cases (i === j)) [
  | inl e ↦ rw e (a, t)
  | inr e ↦ rw e (a, put-IsOther k j v m h t)
]

put-AreRead : (j v : Text) (m : Dict Text) → IsRead (j, v) → AreRead m → AreRead (put j v m)
unfolding put
put-AreRead j v [] h t = ((h, tt), tt)
put-AreRead j v ((i, w) ∷ m) h ((r, a), t) = elim (Bool-cases (i === j)) [
  | inl e ↦ rw e (((r.0, r.1, h.2, h.3), a), t)
  | inr e ↦ rw e ((r, put-IsOther i j v m e a), put-AreRead j v m h t)
]

read_from-AreRead :
    (m : Dict Text) (rows : List (Text × Text)) → AreRead m → AreRead (read_from m rows)
unfolding read_from
read_from-AreRead m [] h = h
read_from-AreRead m ((k, v) ∷ rows) h =
    read_from-AreRead (if truthy (trim k) && truthy (trim v) then put (trim k) (trim v) m else m)
      rows
      (elim (Bool-cases (truthy (trim k) && truthy (trim v))) [
        | inr e ↦ rw e h
        | inl e ↦ rw e (
            put-AreRead (trim k) (trim v) m
              (trim_idem k, ground (arith, e), trim_idem v, ground (arith, e)) h)
      ])

put-new :
    (k v : Text) (m : Dict Text) → All (λ e. (e.0 === k) ≡ false) m → put k v m ≡ m ++ (k, v) ∷ []
unfolding put
put-new k v [] h = refl
put-new k v ((i, w) ∷ m) (h, t) = rw h (ap (◌∷◌ (i, w)) (put-new k v m t))

read_from-cons :
    (m : Dict Text) (k v : Text) (rows : List (Text × Text))
    → IsRead (k, v)
    → read_from m ((k, v) ∷ rows) ≡ read_from (put k v m) rows
unfolding read_from
read_from-cons m k v rows (tk, hk, tv, hv) = rw (tk, tv, hk, hv) refl

-- every key of the first is no key of the second
abbrev AreApart : Dict Text → Dict Text → Type 0
AreApart m [] = Unit
AreApart m (e ∷ n) = All (λ x. (x.0 === e.0) ≡ false) m × AreApart m n

AreApart-step :
    (m n : Dict Text) (e : Text × Text)
    → All (IsOther e.0) n
    → AreApart m n
    → AreApart (m ++ e ∷ []) n
AreApart-step m [] e h a = tt
AreApart-step m (x ∷ n) e (h, t) (a, u) =
    (All-append (λ y. (y.0 === x.0) ≡ false) m (e ∷ []) a (h, tt), AreApart-step m n e t u)

read_from-same : (m n : Dict Text) → AreRead n → AreApart m n → read_from m n ≡ m ++ n
read_from-same m [] h a = unfold read_from in sym (append-nil m)
read_from-same m ((k, v) ∷ n) ((r, o), t) (a, u) =
    read_from-cons m k v n r
    ∙ ap (λ x. read_from x n) (put-new k v m a)
    ∙ read_from-same (m ++ (k, v) ∷ []) n t (AreApart-step m n (k, v) o u)
    ∙ append_assoc m ((k, v) ∷ []) n

AreApart-nil : (n : Dict Text) → AreApart [] n
AreApart-nil [] = tt
AreApart-nil (e ∷ n) = (tt, AreApart-nil n)

-- attributes that were read are read again as they are
read_radius_attrs_idem :
    (rows : List (Text × Text))
    → read_radius_attrs (read_radius_attrs rows) ≡ read_radius_attrs rows
read_radius_attrs_idem rows =
    read_from-same [] (read_radius_attrs rows) (read_from-AreRead [] rows tt)
      (AreApart-nil (read_radius_attrs rows))

-- no template has this id
abbrev pub IsNew : Text → List Template → Type 0
IsNew id ts = All (λ t. (t.id === id) ≡ false) ts

any-added :
    (id : Text) (ts : List Template) (t : Template)
    → t.id ≡ id
    → any (λ x. x.id === id) (ts ++ t ∷ []) ≡ true
any-added id [] t e = rw (e, ===_refl id) refl
any-added id (x ∷ ts) t e = rw (any-added id ts t e) (ground arith)

find-added :
    (id : Text) (ts : List Template) (t : Template)
    → t.id ≡ id
    → IsNew id ts
    → find? (λ x. x.id === id) (ts ++ t ∷ []) ≡ some t
find-added id [] t e h = rw (e, ===_refl id) refl
find-added id (x ∷ ts) t e (h, u) = rw h (find-added id ts t e u)

save_click-stored :
    (id name : Text) (w : Window) (a : Text × Text) (attrs : List (Text × Text))
    → read_radius_attrs w.rows ≡ a ∷ attrs
    → truthy (trim name) ≡ true
    → (save_click id (some name) w).stored
      ≡ value (load_tpls w.stored ++ record { id = id; name = trim name; attrs = a ∷ attrs } ∷ [])
unfolding save_click render_select
save_click-stored id name w a attrs e h =
    ap
      (λ m.
        (elim m as (λ x. Window) [ [] ↦ w | b ∷ bs ↦ saved_if (truthy (trim name)) b bs ]).stored)
      e
    ∙ ap (λ b. (saved_if b a attrs).stored) h
  where
    saved_if : Bool → Text × Text → List (Text × Text) → Window
    saved_if c b bs =
        if c
        then render_select (record w {
          stored =
              value
                (load_tpls w.stored ++ record { id = id; name = trim name; attrs = b ∷ bs } ∷ []);
        })
        else w

load_click-found :
    (w : Window) (t : Template)
    → truthy w.selected ≡ true
    → find? (λ x. x.id === w.selected) (load_tpls w.stored) ≡ some t
    → (load_click w).rows ≡ t.attrs
unfolding load_click
load_click-found w t h e = rw (h, e) refl

select_click-selected :
    (id : Text) (w : Window)
    → any (λ x. x.id === id) (load_tpls w.stored) ≡ true
    → (select_click id w).selected ≡ id
unfolding select_click render_select
select_click-selected id w e = rw e refl

select_click-stored : (id : Text) (w : Window) → (select_click id w).stored ≡ w.stored
unfolding select_click render_select
select_click-stored id w = refl

-- Attributes that are saved as a template, under a new id and a name that is not blank, are put back by
-- selecting that template and loading it, whatever the rows were changed to meanwhile, and they are read
-- as they were.
pub load_click-save_click :
    (id name : Text) (w : Window) (a : Text × Text) (attrs changed : List (Text × Text))
    → read_radius_attrs w.rows ≡ a ∷ attrs
    → truthy (trim name) ≡ true
    → truthy id ≡ true
    → IsNew id (load_tpls w.stored)
    → read_radius_attrs
        (load_click
          (record (select_click id (save_click id (some name) w)) { rows = changed })).rows
      ≡ read_radius_attrs w.rows
load_click-save_click id name w a attrs changed e n h new =
    let t : Template = record { id = id; name = trim name; attrs = a ∷ attrs } in
    let saved = ap load_tpls (save_click-stored id name w a attrs e n) in
    let selected =
      select_click-selected id (save_click id (some name) w)
        (ap (any (λ x. x.id === id)) saved ∙ any-added id (load_tpls w.stored) t refl) in
    let stored = ap load_tpls (select_click-stored id (save_click id (some name) w)) ∙ saved in
    ap read_radius_attrs (
      load_click-found (record (select_click id (save_click id (some name) w)) { rows = changed }) t
        (ap truthy selected ∙ h)
        (ap
            (λ s.
              find? (λ x. x.id === s)
                (load_tpls (select_click id (save_click id (some name) w)).stored))
            selected
          ∙ ap (find? (λ x. x.id === id)) stored
          ∙ find-added id (load_tpls w.stored) t refl new)
      ∙ sym e)
    ∙ read_radius_attrs_idem w.rows
