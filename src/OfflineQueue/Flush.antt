-- ===== src/OfflineQueue/Flush.antt =====
-- What a flush leaves in the queue.
use ise_endpoint_portal.Prelude.{
  ℕ, zero, suc, ◌+◌, ◌≡◌, refl, ap, ◌∙◌, ◌⊎◌, inl, inr, true, false, List, [], ◌∷◌, ◌++◌, arith,
  All, Bool-cases, All-append, All-map, length, take, drop, ◌<◌,
}
use mathlib.Core.Path.{subst}
use mathlib.Core.List.{append-nil, append_assoc}
use ise_endpoint_portal.Js.Text.{◌===◌}
use ise_endpoint_portal.OfflineQueue.Laws.{
  Apart, Distinct, IsArrival, arrived, without_id-head, act_all-arrived, arrived-Apart,
}
use ise_endpoint_portal.OfflineQueue.{
  Queued, Stored, items, load, Action, enqueues, removes, clears, remove_by_id, act_all, Turn,
  Progress, Outcome, resolved, thrown, is_network, flush_round, flush_from, flush_all, start,
}

-- A call ends in a network failure.
abbrev pub IsCut : Outcome → Type 0
IsCut resolved = ⊥
IsCut (thrown e) = is_network e ≡ true

-- A call is answered: the item was created, or refused for good.
abbrev pub IsAnswered : Outcome → Type 0
IsAnswered resolved = Unit
IsAnswered (thrown e) = is_network e ≡ false

pub IsAnswered-or_IsCut : (o : Outcome) → IsAnswered o ⊎ IsCut o
IsAnswered-or_IsCut resolved = inl tt
IsAnswered-or_IsCut (thrown e) = elim (Bool-cases (is_network e)) [ inl n ↦ inr n | inr n ↦ inl n ]

module _ {ℓ} {P : Type ℓ} where
  -- What a round does whose call is answered.
  pub record Settles (turn : Turn P) (it : Queued P) (p : Progress P) : Type ℓ where
    pub goes_on : (flush_round turn it p).1 ≡ true
    pub gone :
        (flush_round turn it p).0.stored ≡ remove_by_id it.id (act_all turn.meanwhile p.stored)
    pub one_more :
        (flush_round turn it p).0.sent + (flush_round turn it p).0.failed ≡ p.sent + p.failed + 1
    pub called_it : (flush_round turn it p).0.called ≡ p.called ++ it ∷ []

  pub round-Settles :
      (o : Outcome) (turn : Turn P) (it : Queued P) (p : Progress P)
      → turn.outcome ≡ o
      → IsAnswered o
      → Settles turn it p
  unfolding flush_round
  round-Settles resolved turn it p e h = record {
    goes_on = rw (e, flush_round);
    gone = rw (e, flush_round);
    one_more = rw (e, flush_round) (omega arith);
    called_it = rw (e, flush_round);
  }
  round-Settles (thrown x) turn it p e h = record {
    goes_on = rw (e, flush_round, h);
    gone = rw (e, flush_round, h);
    one_more = rw (e, flush_round, h) (omega arith);
    called_it = rw (e, flush_round, h);
  }

  pub round-cut :
      (o : Outcome) (turn : Turn P) (it : Queued P) (p : Progress P)
      → turn.outcome ≡ o
      → IsCut o
      → flush_round turn it p ≡ (
        record p { stored = act_all turn.meanwhile p.stored; called = p.called ++ it ∷ [] },
        false,
      )
  unfolding flush_round
  round-cut resolved turn it p e h = absurd h
  round-cut (thrown x) turn it p e h = rw (e, flush_round, h)

  IsArrival-tail :
      (it : Queued P) (its : List (Queued P)) (as' : List (Action P))
      → All (IsArrival (it ∷ its)) as'
      → All (IsArrival its) as'
  IsArrival-tail it its [] h = tt
  IsArrival-tail it its (enqueues y ∷ as') (h, t) = (h.1, IsArrival-tail it its as' t)
  IsArrival-tail it its (removes id ∷ as') (h, t) = absurd h
  IsArrival-tail it its (clears ∷ as') (h, t) = absurd h

  -- An item that is removed behind arrivals leaves all others in their order.
  remove_by_id-arrived :
      (it : Queued P) (its ys : List (Queued P)) (as' : List (Action P))
      → All (λ y. (y.id === it.id) ≡ false) its
      → All (Apart (it ∷ its)) ys
      → All (IsArrival (it ∷ its)) as'
      → remove_by_id it.id (act_all as' (items ((it ∷ its) ++ ys)))
        ≡ items (its ++ (ys ++ arrived as'))
  unfolding remove_by_id
  remove_by_id-arrived it its ys as' d a new =
      rw (act_all-arrived (it ∷ its) as' ((it ∷ its) ++ ys) new) (
        ap items (
          without_id-head it ((its ++ ys) ++ arrived as') (
            All-append (λ y. (y.id === it.id) ≡ false) (its ++ ys) (arrived as')
              (All-append (λ y. (y.id === it.id) ≡ false) its ys d (All-map _ _ (λ y h. h.0) ys a))
              (All-map _ _ (λ y h. h.0) (arrived as') (arrived-Apart (it ∷ its) as' new)))
          ∙ append_assoc its ys (arrived as')))

module _ {ℓ} {P : Type ℓ} (world : ℕ → Turn P) where
  pub flush_all-from : (s : Stored P) → flush_all world s ≡ flush_from world 0 (load s) (start s)
  unfolding flush_all
  flush_all-from s = refl

  -- the items that arrive during `n` calls from the `k`-th on
  abbrev pub arrivals : ℕ → ℕ → List (Queued P)
  arrivals k zero = []
  arrivals k (suc n) = arrived (world k).meanwhile ++ arrivals (suc k) n

  -- How a flush of `xs` ends that starts with the `k`-th call from `p`, where `ys` stand in the
  -- queue behind `xs`. The first `settled` items are gone, each sent or failed; the others stay
  -- in front, in their order. Either all are gone, or the call behind the last that is gone was
  -- cut. The items whose call was made are the first ones, each once.
  pub record Flushed (k : ℕ) (xs ys : List (Queued P)) (p r : Progress P) : Type ℓ where
    pub settled : ℕ
    pub calls : ℕ
    pub counted : r.sent + r.failed ≡ p.sent + p.failed + settled
    pub stored_is : r.stored ≡ items (drop settled xs ++ (ys ++ arrivals k calls))
    pub called_is : r.called ≡ p.called ++ take calls xs
    pub why :
        ((settled ≡ length xs) × (calls ≡ settled))
        ⊎ ((settled < length xs) × (calls ≡ settled + 1) × IsCut (world (k + settled)).outcome)

  Flushed-stop :
      (k : ℕ) (ys : List (Queued P)) (p : Progress P) → p.stored ≡ items ys → Flushed k [] ys p p
  Flushed-stop k ys p e = record {
    settled = 0;
    calls = 0;
    counted = omega arith;
    stored_is = rw append-nil e;
    called_is = rw append-nil;
    why = inl (refl, refl);
  }

  pub flush_from-on :
      (k : ℕ) (it : Queued P) (its : List (Queued P)) (p : Progress P)
      → (flush_round (world k) it p).1 ≡ true
      → flush_from world k (it ∷ its) p
        ≡ flush_from world (suc k) its (flush_round (world k) it p).0
  unfolding flush_from
  flush_from-on k it its p h = rw h

  pub flush_from-off :
      (k : ℕ) (it : Queued P) (its : List (Queued P)) (p q : Progress P)
      → flush_round (world k) it p ≡ (q, false)
      → flush_from world k (it ∷ its) p ≡ q
  unfolding flush_from
  flush_from-off k it its p q h = rw h

  -- One answered call in front of a flush of the others.
  Flushed-cons :
      (k : ℕ) (it : Queued P) (its ys : List (Queued P)) (p q r : Progress P)
      → q.sent + q.failed ≡ p.sent + p.failed + 1
      → q.called ≡ p.called ++ it ∷ []
      → Flushed (suc k) its (ys ++ arrived (world k).meanwhile) q r
      → Flushed k (it ∷ its) ys p r
  Flushed-cons k it its ys p q r one it_called f = record {
    settled = suc f.settled;
    calls = suc f.calls;
    counted = omega (arith, one, f.counted);
    stored_is = rw (f.stored_is, append_assoc);
    called_is = rw (f.called_is, it_called, append_assoc);
    why = elim f.why [
      | inl (all_gone, same) ↦ inl (omega arith, omega arith)
      | inr (short, more, cut) ↦
          inr (omega arith, omega arith, subst (λ n. IsCut (world n).outcome) (omega arith) cut)
    ];
  }

  Flushed-cut :
      (k : ℕ) (it : Queued P) (its ys : List (Queued P)) (p : Progress P) (s : Stored P)
      → s ≡ items ((it ∷ its) ++ (ys ++ arrived (world k).meanwhile))
      → IsCut (world k).outcome
      → Flushed k (it ∷ its) ys p (record p { stored = s; called = p.called ++ it ∷ [] })
  Flushed-cut k it its ys p s e cut = record {
    settled = 0;
    calls = 1;
    counted = omega arith;
    stored_is = rw append-nil e;
    called_is = refl;
    why = inr (omega arith, refl, subst (λ n. IsCut (world n).outcome) (omega arith) cut);
  }

  flush_from-Flushed :
      (xs : List (Queued P)) (k : ℕ) (ys : List (Queued P)) (p : Progress P)
      → Distinct xs
      → All (Apart xs) ys
      → ((n : ℕ) → All (IsArrival xs) (world n).meanwhile)
      → p.stored ≡ items (xs ++ ys)
      → Flushed k xs ys p (flush_from world k xs p)
  flush_from-Flushed [] k ys p d a new e = unfold flush_from in Flushed-stop k ys p e
  flush_from-Flushed (it ∷ its) k ys p d a new e = elim (IsAnswered-or_IsCut (world k).outcome) [
    | inl answered ↦
        let s = round-Settles (world k).outcome (world k) it p refl answered in
        let late = arrived (world k).meanwhile in
        let q = (flush_round (world k) it p).0 in
        let apart =
          All-append (Apart its) ys late (All-map _ _ (λ y h. h.1) ys a)
            (All-map _ _ (λ y h. h.1) late (arrived-Apart (it ∷ its) _ (new k))) in
        let rest =
          flush_from-Flushed its (suc k) (ys ++ late) q d.1 apart
            (λ n. IsArrival-tail it its (world n).meanwhile (new n))
            (s.gone
              ∙ ap (λ st. remove_by_id it.id (act_all (world k).meanwhile st)) e
              ∙ remove_by_id-arrived it its ys (world k).meanwhile d.0 a (new k)) in
        rw (flush_from-on k it its p s.goes_on)
          (Flushed-cons k it its ys p q _ s.one_more s.called_it rest)
    | inr cut ↦
        rw (flush_from-off k it its p _ (round-cut (world k).outcome (world k) it p refl cut)) (
          Flushed-cut k it its ys p _
            (ap (act_all (world k).meanwhile) e
              ∙ act_all-arrived (it ∷ its) (world k).meanwhile (it ∷ (its ++ ys)) (new k)
              ∙ rw append_assoc)
            cut)
  ]

  -- A flush, while new items may arrive: the first items are gone, each sent or failed, and so
  -- counted; the others stay in front in their order, and behind them stand all that arrived.
  -- All are gone, or the loop stopped at the first call that a network failure cut. Each item's
  -- call was made at most once, in the order of the queue. Provided the ids in the queue differ
  -- from one another and from those that arrive, and nobody else removes items meanwhile.
  pub flush_all-Flushed :
      (xs : List (Queued P))
      → Distinct xs
      → ((n : ℕ) → All (IsArrival xs) (world n).meanwhile)
      → Flushed 0 xs [] (start (items xs)) (flush_all world (items xs))
  flush_all-Flushed xs d new =
      rw flush_all-from (flush_from-Flushed xs 0 [] (start (items xs)) d tt new (rw append-nil))
