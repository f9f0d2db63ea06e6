-- ===== src/OfflineQueue.antt =====
-- frontend/js/offline_queue.js: registrations that wait for a connection.
-- Ids, times and the outcome of each `api.createEndpoint` are inputs; so is what other handlers do
-- to the queue while a call is awaited.
pub mod Laws
pub mod Flush
pub mod Safety
mod Tests
use ise_endpoint_portal.Prelude.{
  ℕ, zero, suc, ◌+◌, Bool, true, false, not, ◌&&◌, List, [], ◌∷◌, ◌++◌, Option, none, some, length,
  filter, any, ◌==◌, leb, ltb, if◌then◌else◌,
}
use ise_endpoint_portal.Js.Text.{Text, ◌===◌}

pub record Queued {ℓ} (P : Type ℓ) : Type ℓ where
  pub id : Text
  pub payload : P
  pub enqueued_at : Text

-- What localStorage holds under the queue's key.
pub data Stored {ℓ} (P : Type ℓ) : Type ℓ where
  absent unreadable not_an_array : Stored P
  items : List (Queued P) → Stored P

-- What `api.createEndpoint` throws: an error with a message, or anything else.
pub data Thrown : Type 0 where
  message : Text → Thrown
  without_message : Thrown

pub data Outcome : Type 0 where
  resolved : Outcome
  thrown : Thrown → Outcome

abbrev is_digit : ℕ → Bool
is_digit c = leb b'0' c && leb c b'9'

-- `/^\d{3}:/.test(message)`
unfoldable pub has_status : Text → Bool
has_status (a ∷ b ∷ c ∷ d ∷ s) = is_digit a && (is_digit b && (is_digit c && d == b':'))
has_status _ = false

-- `err && typeof err.message === "string" && !/^\d{3}:/.test(err.message)`
unfoldable pub is_network : Thrown → Bool
unfolding has_status
is_network (message m) = not (has_status m)
is_network without_message = false

module _ {ℓ} {P : Type ℓ} where
  abbrev pub load : Stored P → List (Queued P)
  load absent = []
  load unreadable = []
  load not_an_array = []
  load (items xs) = xs

  abbrev pub save : List (Queued P) → Stored P
  save xs = items xs

  abbrev pub size : Stored P → ℕ
  size s = length (load s)

  unfoldable pub enqueue : Queued P → Stored P → Stored P × ℕ
  enqueue x s = let xs = load s ++ x ∷ [] in (save xs, length xs)

  unfoldable pub without_id : Text → List (Queued P) → List (Queued P)
  without_id id xs = filter (λ it. not (it.id === id)) xs

  unfoldable pub remove_by_id : Text → Stored P → Stored P
  unfolding without_id
  remove_by_id id s = save (without_id id (load s))

  abbrev pub clear : Stored P → Stored P
  clear s = save []

-- What another handler may do to the queue.
pub data Action {ℓ} (P : Type ℓ) : Type ℓ where
  enqueues : Queued P → Action P
  removes : Text → Action P
  clears : Action P

-- One awaited call: what happens meanwhile, and how the call ends.
pub record Turn {ℓ} (P : Type ℓ) : Type ℓ where
  pub meanwhile : List (Action P)
  pub outcome : Outcome

-- The queue and the counters of a flush, and the items whose call was made.
pub record Progress {ℓ} (P : Type ℓ) : Type ℓ where
  pub stored : Stored P
  pub sent : ℕ
  pub failed : ℕ
  pub called : List (Queued P)

module _ {ℓ} {P : Type ℓ} where
  unfoldable pub act : Action P → Stored P → Stored P
  unfolding enqueue remove_by_id
  act (enqueues x) s = (enqueue x s).0
  act (removes id) s = remove_by_id id s
  act clears s = clear s

  unfoldable pub act_all : List (Action P) → Stored P → Stored P
  unfolding act
  act_all [] s = s
  act_all (a ∷ as') s = act_all as' (act a s)

  -- `flushOne`: a call that fails leaves the item in the queue, and the error goes on.
  unfoldable pub flush_one : Turn P → Queued P → Stored P → Stored P × Outcome
  unfolding act_all remove_by_id
  flush_one turn it s =
      let s' = act_all turn.meanwhile s in
      elim turn.outcome [ resolved ↦ (remove_by_id it.id s', resolved) | thrown e ↦ (s', thrown e) ]

  -- One round of the loop of `flushAll`; the flag says that the loop goes on.
  unfoldable pub flush_round : Turn P → Queued P → Progress P → Progress P × Bool
  flush_round turn it p =
      let s = act_all turn.meanwhile p.stored in
      let called = p.called ++ it ∷ [] in
      elim turn.outcome [
        | resolved ↦ (
          record {
            stored = remove_by_id it.id s;
            sent = p.sent + 1;
            failed = p.failed;
            called = called;
          },
          true,
        )
        | thrown e ↦
            if is_network e
            then (record { stored = s; sent = p.sent; failed = p.failed; called = called }, false)
            else (
              record {
                stored = remove_by_id it.id s;
                sent = p.sent;
                failed = p.failed + 1;
                called = called;
              },
              true,
            )
      ]

  -- the loop over the items that were loaded at the start; `k` counts the calls
  unfoldable pub flush_from : (ℕ → Turn P) → ℕ → List (Queued P) → Progress P → Progress P
  flush_from world k [] p = p
  flush_from world k (it ∷ its) p =
      let (p', more) = flush_round (world k) it p in
      let rest = flush_from world (suc k) its p' in if more then rest else p'

  abbrev pub start : Stored P → Progress P
  start s = record { stored = s; sent = 0; failed = 0; called = [] }

  -- `flushAll`; its result `kept` is the size of the queue that is left
  unfoldable pub flush_all : (ℕ → Turn P) → Stored P → Progress P
  unfolding flush_from flush_round act_all remove_by_id is_network
  flush_all world s = flush_from world 0 (load s) (start s)

  -- The handler of the `online` event: the new queue, and the result that is announced.
  unfoldable pub on_online : (ℕ → Turn P) → Stored P → Stored P × Option (Progress P)
  unfolding flush_all
  on_online world s =
      let p = flush_all world s in
      if ltb 0 (size s) then (p.stored, if ltb 0 p.sent then some p else none) else (s, none)
