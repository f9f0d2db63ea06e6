-- ===== src/OfflineQueue/Safety.antt =====
-- What holds of a flush whatever other handlers do to the queue meanwhile.
use ise_endpoint_portal.Prelude.{
  ℕ, suc, ◌≡◌, refl, sym, ap, ◌∙◌, ◌⊎◌, inl, inr, Bool, true, false, ◌||◌, List, [], ◌∷◌, ◌++◌,
  arith, All, any, Bool-cases,
}
use ise_endpoint_portal.Js.Text.{Text, ◌===◌}
use ise_endpoint_portal.Js.Text.Laws.{===_iff}
use ise_endpoint_portal.OfflineQueue.Flush.{
  IsAnswered-or_IsCut, round-Settles, round-cut, flush_from-on, flush_from-off, flush_all-from,
}
use ise_endpoint_portal.OfflineQueue.{
  Queued, Stored, load, Action, enqueues, removes, clears, without_id, remove_by_id, act, act_all,
  Turn, Progress, Outcome, flush_round, flush_from, flush_all, start,
}

module _ {ℓ} {P : Type ℓ} where
  abbrev pub has_id : Text → List (Queued P) → Bool
  has_id id xs = any (λ x. x.id === id) xs

  -- the action does not remove the item with this id
  abbrev pub Spares : Text → Action P → Type 0
  Spares id (enqueues x) = Unit
  Spares id (removes j) = (j === id) ≡ false
  Spares id clears = ⊥

  has_id-append :
      (id : Text) (xs ys : List (Queued P)) → has_id id (xs ++ ys) ≡ (has_id id xs || has_id id ys)
  has_id-append id [] ys = refl
  has_id-append id (x ∷ xs) ys = ground (arith, has_id-append id xs ys)

  has_id-without_id :
      (id j : Text) (xs : List (Queued P))
      → (j === id) ≡ false
      → has_id id (without_id j xs) ≡ has_id id xs
  unfolding without_id
  has_id-without_id id j [] h = refl
  has_id-without_id id j (x ∷ xs) h =
      ground (arith, has_id-without_id id j xs h, ===_iff x.id j, ===_iff x.id id, ===_iff j id)

  act-Spares :
      (id : Text) (a : Action P) (s : Stored P)
      → Spares id a
      → has_id id (load s) ≡ true
      → has_id id (load (act a s)) ≡ true
  unfolding act
  act-Spares id (enqueues x) s h e = rw (has_id-append, e)
  act-Spares id (removes j) s h e = rw (has_id-without_id id j (load s) h) e
  act-Spares id clears s h e = absurd h

  act_all-Spares :
      (id : Text) (as' : List (Action P)) (s : Stored P)
      → All (Spares id) as'
      → has_id id (load s) ≡ true
      → has_id id (load (act_all as' s)) ≡ true
  unfolding act_all
  act_all-Spares id [] s h e = e
  act_all-Spares id (a ∷ as') s (h, t) e = act_all-Spares id as' (act a s) t (act-Spares id a s h e)

  -- The item is in the queue, or its call was made.
  abbrev Held : Text → Progress P → Type 0
  Held id p = (has_id id (load p.stored) ≡ true) ⊎ (has_id id p.called ≡ true)

  called-Held :
      (id : Text) (it : Queued P) (called : List (Queued P))
      → (has_id id called ≡ true) ⊎ ((it.id === id) ≡ true)
      → has_id id (called ++ it ∷ []) ≡ true
  called-Held id it called h = ground (arith, has_id-append id called (it ∷ []))

  called-flush_round :
      (turn : Turn P) (it : Queued P) (p : Progress P)
      → (flush_round turn it p).0.called ≡ p.called ++ it ∷ []
  called-flush_round turn it p = elim (IsAnswered-or_IsCut turn.outcome) [
    | inl answered ↦ (round-Settles turn.outcome turn it p refl answered).called_it
    | inr cut ↦ ap (λ r. r.0.called) (round-cut turn.outcome turn it p refl cut)
  ]

  -- A round leaves the queue to the other handlers, or takes its own item out.
  stored-flush_round :
      (turn : Turn P) (it : Queued P) (p : Progress P)
      → ((flush_round turn it p).0.stored ≡ act_all turn.meanwhile p.stored)
        ⊎ ((flush_round turn it p).0.stored ≡ remove_by_id it.id (act_all turn.meanwhile p.stored))
  stored-flush_round turn it p = elim (IsAnswered-or_IsCut turn.outcome) [
    | inl answered ↦ inr (round-Settles turn.outcome turn it p refl answered).gone
    | inr cut ↦ inl (ap (λ r. r.0.stored) (round-cut turn.outcome turn it p refl cut))
  ]

  remove_by_id-Spares :
      (id j : Text) (s : Stored P)
      → (j === id) ≡ false
      → has_id id (load s) ≡ true
      → has_id id (load (remove_by_id j s)) ≡ true
  unfolding remove_by_id
  remove_by_id-Spares id j s h e = rw (has_id-without_id id j (load s) h) e

  round-Held :
      (id : Text) (turn : Turn P) (it : Queued P) (p : Progress P)
      → All (Spares id) turn.meanwhile
      → Held id p
      → Held id (flush_round turn it p).0
  round-Held id turn it p h (inr c) =
      inr (rw called-flush_round (called-Held id it p.called (inl c)))
  round-Held id turn it p h (inl e) = elim (Bool-cases (it.id === id)) [
    | inl own ↦ inr (rw called-flush_round (called-Held id it p.called (inr own)))
    | inr other ↦ elim (stored-flush_round turn it p) [
      | inl same ↦ inl (rw same (act_all-Spares id turn.meanwhile p.stored h e))
      | inr less ↦ inl (
          rw less
            (remove_by_id-Spares id it.id _ other (act_all-Spares id turn.meanwhile p.stored h e)))
    ]
  ]

module _ {ℓ} {P : Type ℓ} (world : ℕ → Turn P) where
  flush_from-Held :
      (id : Text) (xs : List (Queued P)) (k : ℕ) (p : Progress P)
      → ((n : ℕ) → All (Spares id) (world n).meanwhile)
      → Held id p
      → Held id (flush_from world k xs p)
  flush_from-Held id [] k p h e = unfold flush_from in e
  flush_from-Held id (it ∷ its) k p h e = elim (Bool-cases (flush_round (world k) it p).1) [
    | inl on ↦ rw (flush_from-on world k it its p on) (
        flush_from-Held id its (suc k) (flush_round (world k) it p).0 h
          (round-Held id (world k) it p (h k) e))
    | inr off ↦
        rw
          (flush_from-off world k it its p (flush_round (world k) it p).0
            (ap (λ more. ((flush_round (world k) it p).0, more)) off))
          (round-Held id (world k) it p (h k) e)
  ]

  -- No registration is lost without an attempt: whatever else happens to the queue during a flush,
  -- an item that is in the queue at the start, and that no other handler removes, is in the queue
  -- at the end or its call was made.
  pub flush_all-Held :
      (id : Text) (s : Stored P)
      → ((n : ℕ) → All (Spares id) (world n).meanwhile)
      → has_id id (load s) ≡ true
      → (has_id id (load (flush_all world s).stored) ≡ true)
        ⊎ (has_id id (flush_all world s).called ≡ true)
  flush_all-Held id s h e = rw flush_all-from (flush_from-Held id (load s) 0 (start s) h (inl e))

module _ {ℓ} {P : Type ℓ} (world other : ℕ → Turn P) where
  -- what a flush reports, and the calls that it made
  pub record SameReport (p q : Progress P) : Type ℓ where
    pub same_sent : p.sent ≡ q.sent
    pub same_failed : p.failed ≡ q.failed
    pub same_called : p.called ≡ q.called

  round-SameReport :
      (o : Outcome) (t u : Turn P) (it : Queued P) (p q : Progress P)
      → t.outcome ≡ o
      → u.outcome ≡ o
      → SameReport p q
      → SameReport (flush_round t it p).0 (flush_round u it q).0
        × ((flush_round t it p).1 ≡ (flush_round u it q).1)
  unfolding flush_round
  round-SameReport o t u it p q e f h = ground arith

  flush_from-SameReport :
      (xs : List (Queued P)) (k : ℕ) (p q : Progress P)
      → ((n : ℕ) → (world n).outcome ≡ (other n).outcome)
      → SameReport p q
      → SameReport (flush_from world k xs p) (flush_from other k xs q)
  flush_from-SameReport [] k p q same h = unfold flush_from in h
  flush_from-SameReport (it ∷ its) k p q same h =
      let (h', flags) =
        round-SameReport (other k).outcome (world k) (other k) it p q (same k) refl h in
      elim (Bool-cases (flush_round (world k) it p).1) [
        | inl on ↦
            rw (flush_from-on world k it its p on, flush_from-on other k it its q (sym flags ∙ on))
              (flush_from-SameReport its (suc k) (flush_round (world k) it p).0
                (flush_round (other k) it q).0 same h')
        | inr off ↦
            rw
              (
                flush_from-off world k it its p (flush_round (world k) it p).0
                    (ap (λ more. ((flush_round (world k) it p).0, more)) off),
                flush_from-off other k it its q (flush_round (other k) it q).0
                    (ap (λ more. ((flush_round (other k) it q).0, more)) (sym flags ∙ off)),
              )
              h'
      ]

  -- The calls and the counters of a flush follow from the queue at its start and from how the
  -- calls end: what other handlers remove from the queue, or send themselves, while the flush
  -- runs is called all the same.
  flush_all-SameReport :
      (s : Stored P)
      → ((n : ℕ) → (world n).outcome ≡ (other n).outcome)
      → SameReport (flush_all world s) (flush_all other s)
  flush_all-SameReport s same =
      rw (flush_all-from world s, flush_all-from other s)
        (flush_from-SameReport (load s) 0 (start s) (start s) same
          (record { same_sent = refl; same_failed = refl; same_called = refl }))
