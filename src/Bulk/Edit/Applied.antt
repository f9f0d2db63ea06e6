-- ===== src/Bulk/Edit/Applied.antt =====
-- What a bulk edit changes.
use ise_endpoint_portal.Prelude.{
  ◌≡◌, refl, sym, ap, ◌∙◌, inl, inr, Bool, true, false, ◌||◌, List, [], ◌∷◌, if◌then◌else◌, map,
  All, Bool-cases,
}
use ise_endpoint_portal.Js.Text.{Text, ◌===◌, includes_text}
use ise_endpoint_portal.Js.Text.Laws.{===_iff, ===_comm}
use ise_endpoint_portal.Bulk.Edit.{Drawn, change_row, apply_each}

-- the table has each id once
abbrev pub HasOnce : List Drawn → Type 0
HasOnce [] = Unit
HasOnce (d ∷ ds) = All (λ e. (e.id === d.id) ≡ false) ds × HasOnce ds

module _ (g : Drawn → Drawn) (same_id : (d : Drawn) → (g d).id ≡ d.id)
    (idem : (d : Drawn) → g (g d) ≡ g d) where
  -- a row of the table after the edit of these ids
  abbrev edited : List Text → Drawn → Drawn
  edited ids d = if includes_text ids d.id then g d else d

  abbrev edited_one : Text → Drawn → Drawn
  edited_one id d = if d.id === id then g d else d

  map-others :
      (id : Text) (d : Drawn) (ds : List Drawn)
      → (d.id === id) ≡ true
      → All (λ e. (e.id === d.id) ≡ false) ds
      → map (edited_one id) ds ≡ ds
  map-others id d [] e h = refl
  map-others id d (x ∷ xs) e (h, t) =
      rw (other ((===_iff d.id id).0 e) h) (ap (◌∷◌ x) (map-others id d xs e t))
    where
      other : d.id ≡ id → (x.id === d.id) ≡ false → (x.id === id) ≡ false
      other k j = rw k at j

  change_row-map :
      (id : Text) (ds : List Drawn) → HasOnce ds → change_row id g ds ≡ map (edited_one id) ds
  unfolding change_row
  change_row-map id [] h = refl
  change_row-map id (d ∷ ds) (h, t) = elim (Bool-cases (d.id === id)) [
    | inl e ↦ rw e (ap (◌∷◌ (g d)) (sym (map-others id d ds e h)))
    | inr e ↦ rw e (ap (◌∷◌ d) (change_row-map id ds t))
  ]

  map-HasOnce : (id : Text) (ds : List Drawn) → HasOnce ds → HasOnce (map (edited_one id) ds)
  map-HasOnce id [] h = tt
  map-HasOnce id (d ∷ ds) (h, t) = (apart ds h, map-HasOnce id ds t)
    where
      id-edited_one : (x : Drawn) → (edited_one id x).id ≡ x.id
      id-edited_one x = elim (Bool-cases (x.id === id)) [
        | inl e ↦ ap (λ b. (if b then g x else x).id) e ∙ same_id x
        | inr e ↦ ap (λ b. (if b then g x else x).id) e
      ]

      apart :
          (xs : List Drawn)
          → All (λ x. (x.id === d.id) ≡ false) xs
          → All (λ x. (x.id === (edited_one id d).id) ≡ false) (map (edited_one id) xs)
      apart [] k = tt
      apart (x ∷ xs) (k, u) = (rw (id-edited_one x, id-edited_one d) k, apart xs u)

  edited-if :
      (ids : List Text) (d x : Drawn) (b : Bool)
      → includes_text ids d.id ≡ b
      → (if b then g d else d) ≡ x
      → edited ids d ≡ x
  edited-if ids d x b e k = ap (λ c. if c then g d else d) e ∙ k

  edited-again : (ids : List Text) (d : Drawn) → edited ids (g d) ≡ g d
  edited-again ids d = elim (Bool-cases (includes_text ids (g d).id)) [
    | inl e ↦ edited-if ids (g d) (g d) true e (idem d)
    | inr e ↦ edited-if ids (g d) (g d) false e refl
  ]

  includes-cons :
      (id : Text) (ids : List Text) (d : Drawn) (b : Bool)
      → (d.id === id) ≡ b
      → includes_text (id ∷ ids) d.id ≡ (b || includes_text ids d.id)
  unfolding includes_text
  includes-cons id ids d b e = ap (λ c. c || includes_text ids d.id) (===_comm id d.id ∙ e)

  -- the edit of one id and then of others
  edited-cons :
      (id : Text) (ids : List Text) (d : Drawn) → edited ids (edited_one id d) ≡ edited (id ∷ ids) d
  edited-cons id ids d = elim (Bool-cases (d.id === id)) [
    | inl e ↦
        ap (λ c. edited ids (if c then g d else d)) e
        ∙ edited-again ids d
        ∙ sym (edited-if (id ∷ ids) d (g d) true (includes-cons id ids d true e) refl)
    | inr e ↦
        ap (λ c. edited ids (if c then g d else d)) e
        ∙ sym (ap (λ c. if c then g d else d) (includes-cons id ids d false e))
  ]

  map-edited :
      (id : Text) (ids : List Text) (ds : List Drawn)
      → map (edited ids) (map (edited_one id) ds) ≡ map (edited (id ∷ ids)) ds
  map-edited id ids [] = refl
  map-edited id ids (d ∷ ds) =
      ap (λ x. x ∷ map (edited ids) (map (edited_one id) ds)) (edited-cons id ids d)
      ∙ ap (◌∷◌ (edited (id ∷ ids) d)) (map-edited id ids ds)

  map-edited_none : (ds : List Drawn) → map (edited []) ds ≡ ds
  unfolding includes_text
  map-edited_none [] = refl
  map-edited_none (d ∷ ds) = ap (◌∷◌ d) (map-edited_none ds)

  pub apply_each-map :
      (ids : List Text) (ds : List Drawn)
      → HasOnce ds
      → apply_each ids g ds ≡ map (λ d. if includes_text ids d.id then g d else d) ds
  unfolding apply_each
  apply_each-map [] ds h = sym (map-edited_none ds)
  apply_each-map (id ∷ ids) ds h =
      ap (apply_each ids g) (change_row-map id ds h)
      ∙ apply_each-map ids (map (edited_one id) ds) (map-HasOnce id ds h)
      ∙ map-edited id ids ds
