-- ===== src/Tree/Layout/Saving.antt =====
-- The timer that saves the layout never saves an old one.
use ise_endpoint_portal.Prelude.{
  ◌≡◌, ◌⊎◌, refl, sym, ap, ◌∙◌, inl, inr, true, List, [], ◌∷◌, Option, none, some, Bool-cases,
}
use ise_endpoint_portal.Js.Text.{Text, ◌===◌}
use ise_endpoint_portal.Js.Text.Laws.{===_iff}
use ise_endpoint_portal.Tree.Layout.{Layout, current_layout, Saver, persist_layout_if_changed}

-- the tree is drawn, or the timer fires and saves what is pending
pub data Event : Type 0 where
  renders : Layout → Event
  fires : Event

abbrev pub fresh : Saver
fresh = record { signature = none; pending = none }

module _ (sign : Layout → Text) where
  unfoldable pub handle : Event → Saver → Saver
  unfolding persist_layout_if_changed
  handle (renders state) saver = persist_layout_if_changed sign true state saver
  handle fires saver = record saver { pending = none }

  unfoldable pub handle_all : List Event → Saver → Saver
  unfolding handle
  handle_all [] saver = saver
  handle_all (e ∷ es) saver = handle_all es (handle e saver)

  -- What is pending, if anything, has the signature.
  abbrev IsCurrent : Saver → Type 0
  IsCurrent saver =
      (saver.pending ≡ none)
      ⊎ ((l : Layout) × (saver.pending ≡ some l) × (saver.signature ≡ some (sign l)))

  persist_lem :
      (state : Layout) (sig : Option Text) (pending : Option Layout)
      → IsCurrent (record { signature = sig; pending = pending })
      → IsCurrent (
          persist_layout_if_changed sign true state (record { signature = sig; pending = pending }))
        × ((persist_layout_if_changed sign true state
              (record { signature = sig; pending = pending })).signature
            ≡ some (sign (current_layout state)))
  unfolding persist_layout_if_changed
  persist_lem state none pending (inl h) = (inl h, refl)
  persist_lem state none pending (inr (l, p, s)) = absurd (cc s)
  persist_lem state (some sig) pending h = elim (Bool-cases (sign (current_layout state) === sig)) [
    | inl e ↦ rw e (h, ap some (sym ((===_iff _ sig).0 e)))
    | inr e ↦ rw e (inr (current_layout state, refl, refl), refl)
  ]

  handle-IsCurrent : (e : Event) (saver : Saver) → IsCurrent saver → IsCurrent (handle e saver)
  unfolding handle
  handle-IsCurrent (renders state) saver h = (persist_lem state saver.signature saver.pending h).0
  handle-IsCurrent fires saver h = inl refl

  handle_all-IsCurrent :
      (es : List Event) (saver : Saver) → IsCurrent saver → IsCurrent (handle_all es saver)
  unfolding handle_all
  handle_all-IsCurrent [] saver h = h
  handle_all-IsCurrent (e ∷ es) saver h =
      handle_all-IsCurrent es (handle e saver) (handle-IsCurrent e saver h)

  -- Whatever was drawn and saved before, once a layout has been drawn nothing is left to save, or the
  -- layout that the timer is about to save has the signature of the one that was drawn.
  pub pending-renders :
      (es : List Event) (state : Layout)
      → ((handle (renders state) (handle_all es fresh)).pending ≡ none)
        ⊎ ((l : Layout) × ((handle (renders state) (handle_all es fresh)).pending ≡ some l)
            × (sign l ≡ sign (current_layout state)))
  unfolding handle
  pending-renders es state =
      let saver = handle_all es fresh in
      let (current, signed) =
        persist_lem state saver.signature saver.pending
          (handle_all-IsCurrent es fresh (inl refl)) in
      elim current [ inl h ↦ inl h | inr (l, p, s) ↦ inr (l, p, cc (sym s ∙ signed)) ]
