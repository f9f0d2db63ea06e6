-- ===== src/Session/Tests.antt =====
-- Runs of a session, and the theorems at concrete inputs.
use ise_endpoint_portal.Prelude.{
  ◌⊎◌, ℕ, ◌+◌, ◌≤◌, ◌<◌, ◌≡◌, refl, true, List, [], ◌∷◌, none, some, arith,
}
use ise_endpoint_portal.Js.Text.{codes, ◌===◌}
use ise_endpoint_portal.Session.{
  Session, User, value, at, reply, schedule_token_refresh, is_admin, Running, poll, refresh_ends,
}
use ise_endpoint_portal.Session.Refresh.{
  Event, clears, fires, polls, answers, handle, handle_all, schedule_token_refresh_bounds,
}

abbrev admin : User
admin = record { username = codes "jgl"; role = codes "admin" }

-- One hour is left of this token at time 0.
abbrev hour : Session
hour = record {
  meta = value (record { expires_at = some (at 3_600_000); auth_type = codes "local" });
  user = value admin;
  timer = none;
}

is_admin-hour : is_admin hour ≡ true
unfolding is_admin ◌===◌
is_admin-hour = refl

timer-hour : (schedule_token_refresh 0 hour).timer ≡ some 2_700_000
unfolding schedule_token_refresh
timer-hour = refl

schedule_token_refresh_bounds_example :
    (t : ℕ) × ((schedule_token_refresh 0 hour).timer ≡ some t)
    × (0 ≤ t)
    × (t ≤ 3_600_000)
    × (((t + 900_000 ≤ 3_600_000) × (3_600_000 < t + 901_000))
        ⊎ ((3_600_000 < 0 + 900_000) × (t ≡ 0)))
schedule_token_refresh_bounds_example =
    schedule_token_refresh_bounds 0 3_600_000 hour refl (omega arith)

abbrev one_call : ℕ → Session → Running
one_call n s = record { session = s; calls = n }

-- A refresh that the polling begins, and the answer.
abbrev renewal : List (ℕ × Event)
renewal = (3_000_000, polls) ∷ (3_000_001, answers (reply (some (at 7_000_000)) none none)) ∷ []

meta-renewal :
    (handle_all renewal (one_call 0 hour)).session.meta
    ≡ value (record { expires_at = some (at 7_000_000); auth_type = codes "local" })
unfolding handle_all handle poll refresh_ends
meta-renewal = refl

-- The session is cleared while the call runs, and is there again after the answer.
abbrev late_answer : List (ℕ × Event)
late_answer =
    (3_000_000, polls)
    ∷ (3_000_001, clears)
    ∷ (3_000_002, answers (reply (some (at 7_000_000)) none (some admin)))
    ∷ []

session-late_answer :
    ((handle_all late_answer (one_call 0 hour)).session.meta
      ≡ value (record { expires_at = some (at 7_000_000); auth_type = codes "local" }))
    × ((handle_all late_answer (one_call 0 hour)).session.user ≡ value admin)
unfolding handle_all handle poll refresh_ends
session-late_answer = (refl, refl)

abbrev late_events : List (ℕ × Event)
late_events = (5, fires) ∷ (6, polls) ∷ (7, answers (reply (some (at 9)) none (some admin))) ∷ []
