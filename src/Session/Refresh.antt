-- ===== src/Session/Refresh.antt =====
-- When the refresh timer fires, and what can bring a session back.
use ise_endpoint_portal.Prelude.{
  ◌⊎◌, inl, inr, Bool, false, leb, leb→le, ℕ, ◌+◌, ◌-◌, ◌*◌, ◌/◌, ◌≤◌, ◌<◌, ◌≡◌, refl, ap, ◌∙◌,
  true, List, [], ◌∷◌, Option, some, arith, All,
}
use ise_endpoint_portal.Session.{
  Session, Meta, User, absent, at, expiry, RefreshReply, reply, save, clear, refresh_delay,
  seconds_left, cancel_token_refresh, schedule_token_refresh, Running, refresh_ends, timer_fires,
  poll, fires_at,
}

not_leb→lt : (a b : ℕ) → leb a b ≡ false → b < a
not_leb→lt a b i = ground arith

delay_bounds :
    (now e : ℕ)
    → now + 1000 ≤ e
    → (d : ℕ) × (refresh_delay (seconds_left now (some (at e))) ≡ some d)
      × (now + d ≤ e)
      × (((now + d + 900_000 ≤ e) × (e < now + d + 901_000)) ⊎ ((e < now + 900_000) × (d ≡ 0)))
delay_bounds now e h = (
  ((e - now) / 1000 - 900) * 1000,
  ground arith,
  omega arith,
  early_or_late (leb 900_000 (e - now)) refl,
)
  where
    early_or_late :
        (b : Bool)
        → leb 900_000 (e - now) ≡ b
        → ((now + ((e - now) / 1000 - 900) * 1000 + 900_000 ≤ e)
            × (e < now + ((e - now) / 1000 - 900) * 1000 + 901_000))
          ⊎ ((e < now + 900_000) × (((e - now) / 1000 - 900) * 1000 ≡ 0))
    early_or_late true k = let enough = leb→le 900_000 (e - now) k in inl (omega arith, omega arith)
    early_or_late false k =
        let short = not_leb→lt 900_000 (e - now) k in inr (omega arith, omega arith)

-- Scheduling for a token that lives for another second or more sets a timer between now and the
-- expiry. Either it fires fifteen minutes before the expiry, less than a second early, or less
-- than fifteen minutes are left, and it fires at once.
pub schedule_token_refresh_bounds :
    (now e : ℕ) (s : Session)
    → expiry s ≡ some (at e)
    → now + 1000 ≤ e
    → (t : ℕ) × ((schedule_token_refresh now s).timer ≡ some t)
      × (now ≤ t)
      × (t ≤ e)
      × (((t + 900_000 ≤ e) × (e < t + 901_000)) ⊎ ((e < now + 900_000) × (t ≡ now)))
unfolding schedule_token_refresh
schedule_token_refresh_bounds now e s live h =
    let (d, set, within, sides) = delay_bounds now e h in
    (
      now + d,
      ap (λ x. fires_at now (refresh_delay (seconds_left now x))) live ∙ ap (fires_at now) set,
      omega arith,
      within,
      elim sides [ inl (a, b) ↦ inl (a, b) | inr (a, b) ↦ inr (a, omega (arith, b)) ],
    )

-- What happens to a session after the page has loaded, each at a time.
pub data Event : Type 0 where
  logs_in : Option Meta → Option User → Event
  clears cancels schedules fires polls : Event
  answers : RefreshReply → Event

abbrev on_session : (Session → Session) → Running → Running
on_session f p = record p { session = f p.session }

unfoldable pub handle : ℕ → Event → Running → Running
handle now (logs_in m u) p = on_session (save m u) p
handle now clears p = on_session clear p
handle now cancels p = on_session cancel_token_refresh p
handle now schedules p = on_session (schedule_token_refresh now) p
handle now fires p = timer_fires now p
handle now polls p = poll now p
handle now (answers r) p = refresh_ends now r p

unfoldable pub handle_all : List (ℕ × Event) → Running → Running
handle_all [] p = p
handle_all ((now, e) ∷ es) p = handle_all es (handle now e p)

-- Nothing of a session is kept.
pub record IsLoggedOut (s : Session) : Type 0 where
  pub no_meta : s.meta ≡ absent
  pub no_user : s.user ≡ absent

abbrev pub IsNoLogin : ℕ × Event → Type 0
IsNoLogin (now, logs_in m u) = ⊥
IsNoLogin (now, _) = Unit

-- no reply that brings a new expiry
abbrev pub IsNoRenewal : ℕ × Event → Type 0
IsNoRenewal (now, answers (reply (some e) kind u)) = ⊥
IsNoRenewal (now, _) = Unit

-- No call runs, or no reply of the list brings a new expiry.
abbrev pub IsQuiet : List (ℕ × Event) → Running → Type 0
IsQuiet es p = (p.calls ≡ 0) ⊎ All IsNoRenewal es
