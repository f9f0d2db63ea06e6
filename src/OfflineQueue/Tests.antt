-- ===== src/OfflineQueue/Tests.antt =====
-- A flush of three registrations, and the theorems at concrete inputs.
use ise_endpoint_portal.Prelude.{ℕ, zero, suc, ◌≡◌, refl, ◌⊎◌, true, List, [], ◌∷◌, arith, All}
use ise_endpoint_portal.Js.Text.{Text, codes, ◌===◌}
use ise_endpoint_portal.OfflineQueue.{
  Queued, items, load, enqueues, removes, Turn, resolved, thrown, message, flush_all, start,
}
use ise_endpoint_portal.OfflineQueue.Flush.{Flushed, flush_all-Flushed}
use ise_endpoint_portal.OfflineQueue.Laws.{Distinct, IsArrival}
use ise_endpoint_portal.OfflineQueue.Safety.{has_id, Spares, flush_all-Held}

abbrev item : Text → Queued ℕ
item id = record { id = id; payload = 7; enqueued_at = codes "2026-05-22" }

abbrev waiting : List (Queued ℕ)
waiting = item (codes "a") ∷ item (codes "b") ∷ item (codes "c") ∷ []

-- `a` is created, `b` is refused, and the connection breaks at `c`, while `d` arrives.
abbrev world : ℕ → Turn ℕ
world zero = record { meanwhile = enqueues (item (codes "d")) ∷ []; outcome = resolved }
world (suc zero) = record { meanwhile = []; outcome = thrown (message (codes "409: exists")) }
world (suc (suc n)) = record {
  meanwhile = [];
  outcome = thrown (message (codes "Failed to fetch"));
}

-- The same calls, while another handler empties the queue.
abbrev racing : ℕ → Turn ℕ
racing zero = record { meanwhile = removes (codes "b") ∷ []; outcome = resolved }
racing (suc n) = world (suc n)

flush_all-world : flush_all world (items waiting) ≡ record {
  stored = items (item (codes "c") ∷ item (codes "d") ∷ []);
  sent = 1;
  failed = 1;
  called = waiting;
}
unfolding flush_all ◌===◌
flush_all-world = refl

waiting-Distinct : Distinct waiting
unfolding ◌===◌
waiting-Distinct = ground arith

world-IsArrival : (n : ℕ) → All (IsArrival waiting) (world n).meanwhile
unfolding ◌===◌
world-IsArrival zero = ground arith
world-IsArrival (suc zero) = tt
world-IsArrival (suc (suc n)) = tt

flush_all-Flushed_example :
    Flushed world 0 waiting [] (start (items waiting)) (flush_all world (items waiting))
flush_all-Flushed_example = flush_all-Flushed world waiting waiting-Distinct world-IsArrival

world-Spares : (n : ℕ) → All (Spares (codes "b")) (world n).meanwhile
world-Spares zero = (tt, tt)
world-Spares (suc zero) = tt
world-Spares (suc (suc n)) = tt

waiting_b : has_id (codes "b") waiting ≡ true
unfolding ◌===◌
waiting_b = refl

flush_all-Held_example :
    (has_id (codes "b") (load (flush_all world (items waiting)).stored) ≡ true)
    ⊎ (has_id (codes "b") (flush_all world (items waiting)).called ≡ true)
flush_all-Held_example = flush_all-Held world (codes "b") (items waiting) world-Spares waiting_b

same_outcomes : (n : ℕ) → (world n).outcome ≡ (racing n).outcome
same_outcomes zero = refl
same_outcomes (suc n) = refl
