-- ===== src/OfflineQueue/Laws.antt =====
-- Queues under removal and under the actions of other handlers.
use ise_endpoint_portal.Prelude.{◌≡◌, refl, ap, ◌∙◌, false, List, [], ◌∷◌, ◌++◌, All}
use mathlib.Core.List.{append-nil, append_assoc}
use ise_endpoint_portal.Js.Text.{Text, ◌===◌}
use ise_endpoint_portal.Js.Text.Laws.{===_refl}
use ise_endpoint_portal.OfflineQueue.{
  Queued, items, Action, enqueues, removes, clears, without_id, act_all,
}

module _ {ℓ} {P : Type ℓ} where
  -- `y` has the id of none of `xs`
  abbrev pub Apart : List (Queued P) → Queued P → Type 0
  Apart xs y = All (λ x. (y.id === x.id) ≡ false) xs

  -- the ids of `xs` differ from one another
  abbrev pub Distinct : List (Queued P) → Type 0
  Distinct [] = Unit
  Distinct (x ∷ xs) = All (λ y. (y.id === x.id) ≡ false) xs × Distinct xs

  -- an item arrives whose id is new among `xs`
  abbrev pub IsArrival : List (Queued P) → Action P → Type 0
  IsArrival xs (enqueues y) = Apart xs y
  IsArrival xs (removes id) = ⊥
  IsArrival xs clears = ⊥

  abbrev pub arrived : List (Action P) → List (Queued P)
  arrived [] = []
  arrived (enqueues y ∷ as') = y ∷ arrived as'
  arrived (removes id ∷ as') = arrived as'
  arrived (clears ∷ as') = arrived as'

  pub without_id-none :
      (id : Text) (xs : List (Queued P))
      → All (λ x. (x.id === id) ≡ false) xs
      → without_id id xs ≡ xs
  unfolding without_id
  without_id-none id [] h = refl
  without_id-none id (x ∷ xs) (h, t) = rw h (ap (◌∷◌ x) (without_id-none id xs t))

  pub without_id-head :
      (x : Queued P) (xs : List (Queued P))
      → All (λ y. (y.id === x.id) ≡ false) xs
      → without_id x.id (x ∷ xs) ≡ xs
  without_id-head x xs h = without_id-cons x xs ∙ without_id-none x.id xs h
    where
      without_id-cons :
          (x : Queued P) (xs : List (Queued P)) → without_id x.id (x ∷ xs) ≡ without_id x.id xs
      without_id-cons x xs = unfold without_id in rw ===_refl

  pub act_all-arrived :
      (xs : List (Queued P)) (as' : List (Action P)) (ys : List (Queued P))
      → All (IsArrival xs) as'
      → act_all as' (items ys) ≡ items (ys ++ arrived as')
  unfolding act_all
  act_all-arrived xs [] ys h = rw append-nil
  act_all-arrived xs (enqueues y ∷ as') ys (h, t) =
      act_all-arrived xs as' (ys ++ y ∷ []) t ∙ rw append_assoc
  act_all-arrived xs (removes id ∷ as') ys (h, t) = absurd h
  act_all-arrived xs (clears ∷ as') ys (h, t) = absurd h

  pub arrived-Apart :
      (xs : List (Queued P)) (as' : List (Action P))
      → All (IsArrival xs) as'
      → All (Apart xs) (arrived as')
  arrived-Apart xs [] h = tt
  arrived-Apart xs (enqueues y ∷ as') (h, t) = (h, arrived-Apart xs as' t)
  arrived-Apart xs (removes id ∷ as') (h, t) = absurd h
  arrived-Apart xs (clears ∷ as') (h, t) = absurd h
