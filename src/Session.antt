-- ===== src/Session.antt =====
-- frontend/js/auth.js: what the browser keeps of a session, roles, expiry and the refresh timer.
-- Times are milliseconds; the texts that `Date` and `JSON.parse` read are represented by what
-- they read from them.
pub mod Refresh
mod Tests
use ise_endpoint_portal.Prelude.{
  ℕ, zero, suc, ◌+◌, ◌-◌, ◌*◌, ◌/◌, Bool, true, false, ◌||◌, ◌&&◌, List, [], ◌∷◌, Option, none,
  some, ltb, leb, if◌then◌else◌,
}
pub use ise_endpoint_portal.Js.Storage.{Entry, absent, unreadable, value, read}
use ise_endpoint_portal.Js.Text.{Text, codes, ◌===◌, includes_text}

-- `new Date(s)`: a time, or an invalid date
pub data Instant : Type 0 where
  at : ℕ → Instant
  invalid : Instant

-- `expires_at` is `none` where it is missing or empty.
pub record Meta : Type 0 where
  pub expires_at : Option Instant
  pub auth_type : Text

pub record User : Type 0 where
  pub username : Text
  pub role : Text

-- The two keys of the session, and the time at which the pending refresh timer fires.
pub record Session : Type 0 where
  pub meta : Entry Meta
  pub user : Entry User
  pub timer : Option ℕ

abbrev pub get_user : Session → Option User
get_user s = read s.user

abbrev pub get_meta : Session → Option Meta
get_meta s = read s.meta

-- `if (tokenMeta && … tokenMeta.expires_at)`
abbrev pub saved_meta : Option Meta → Entry Meta → Entry Meta
saved_meta none old = old
saved_meta (some m) old = elim m.expires_at [ none ↦ old | some e ↦ value m ]

abbrev pub saved_user : Option User → Entry User → Entry User
saved_user none old = old
saved_user (some u) old = value u

unfoldable pub save : Option Meta → Option User → Session → Session
save m u s = record s { meta = saved_meta m s.meta; user = saved_user u s.user }

unfoldable pub clear : Session → Session
clear s = record s { meta = absent; user = absent }

-- `hasRole(...roles)`
unfoldable pub has_role : List Text → Session → Bool
unfolding includes_text
has_role roles s = elim (get_user s) [ none ↦ false | some u ↦ includes_text roles u.role ]

unfoldable pub is_admin : Session → Bool
is_admin s = elim (get_user s) [ none ↦ false | some u ↦ u.role === codes "admin" ]

unfoldable pub is_editor : Session → Bool
is_editor s = elim (get_user s) [
  | none ↦ false
  | some u ↦ u.role === codes "admin" || u.role === codes "editor"
]

unfoldable pub is_tacacs : Session → Bool
is_tacacs s = elim (get_meta s) [ none ↦ false | some m ↦ m.auth_type === codes "tacacs" ]

abbrev pub expiry : Session → Option Instant
expiry s = elim (get_meta s) [ none ↦ none | some m ↦ m.expires_at ]

-- A comparison with an invalid date is false.
abbrev pub is_past : ℕ → Option Instant → Bool
is_past now none = true
is_past now (some (at e)) = ltb e now
is_past now (some invalid) = false

unfoldable pub is_token_expired : ℕ → Session → Bool
is_token_expired now s = is_past now (expiry s)

-- a number of seconds, or `NaN`
pub data Seconds : Type 0 where
  seconds : ℕ → Seconds
  nan : Seconds

-- `Math.max(0, Math.floor((e - now) / 1000))`; the subtraction of ℕ stops at 0
abbrev pub seconds_left : ℕ → Option Instant → Seconds
seconds_left now none = seconds 0
seconds_left now (some (at e)) = seconds ((e - now) / 1000)
seconds_left now (some invalid) = nan

unfoldable pub seconds_until_expiry : ℕ → Session → Seconds
seconds_until_expiry now s = seconds_left now (expiry s)

abbrev pub refresh_before_expiry_s : ℕ
refresh_before_expiry_s = 15 * 60

-- The delay of the timer, `none` where `secs <= 0` returns early; `setTimeout` takes `NaN` for 0.
abbrev pub refresh_delay : Seconds → Option ℕ
refresh_delay (seconds s) = if leb s 0 then none else some ((s - refresh_before_expiry_s) * 1000)
refresh_delay nan = some 0

unfoldable pub cancel_token_refresh : Session → Session
cancel_token_refresh s = record s { timer = none }

abbrev pub fires_at : ℕ → Option ℕ → Option ℕ
fires_at now none = none
fires_at now (some delay) = some (now + delay)

unfoldable pub schedule_token_refresh : ℕ → Session → Session
unfolding cancel_token_refresh seconds_until_expiry
schedule_token_refresh now s =
    let s' = cancel_token_refresh s in
    record s' { timer = fires_at now (refresh_delay (seconds_until_expiry now s')) }

-- What `api.refreshToken()` brings: an error, an error behind a reply with status 401, for which `request`
-- clears the session, or a reply with the fields that are read.
pub data RefreshReply : Type 0 where
  failed not_logged_in : RefreshReply
  reply : Option Instant → Option Text → Option User → RefreshReply

abbrev pub text_or : Text → Option Text → Text
text_or d none = d
text_or d (some []) = d
text_or d (some (c ∷ s)) = c ∷ s

abbrev pub user_or : Option User → Option User → Option User
user_or none u = u
user_or (some u) v = some u

-- `doSilentRefresh` of frontend/js/app.js behind its `await`: the session is as it is then
unfoldable pub refreshed : ℕ → RefreshReply → Session → Session
unfolding save clear schedule_token_refresh
refreshed now failed s = s
refreshed now not_logged_in s = clear s
refreshed now (reply none kind u) s = s
refreshed now (reply (some e) kind u) s = schedule_token_refresh now (
    save (some (record { expires_at = some e; auth_type = text_or (codes "local") kind }))
      (user_or u (get_user s)) s)

-- The session, and how many calls of `api.refreshToken` run.
pub record Running : Type 0 where
  pub session : Session
  pub calls : ℕ

-- `doSilentRefresh` up to its `await`
unfoldable pub do_silent_refresh : ℕ → Running → Running
unfolding is_token_expired
do_silent_refresh now p =
    if is_token_expired now p.session then p else record p { calls = suc p.calls }

-- A call of `api.refreshToken` ends, if there is one.
unfoldable pub refresh_ends : ℕ → RefreshReply → Running → Running
unfolding refreshed
refresh_ends now r p = elim p.calls [
  | zero ↦ p
  | suc n ↦ record { session = refreshed now r p.session; calls = n }
]

-- The timer of `scheduleTokenRefresh` fires: it is spent, and begins a refresh of a live session.
unfoldable pub timer_fires : ℕ → Running → Running
unfolding is_token_expired do_silent_refresh
timer_fires now p =
    let p' = record p { session = record p.session { timer = none } } in
    if is_token_expired now p'.session then p' else do_silent_refresh now p'

-- `auth.secondsUntilExpiry() < 15 * 60`
abbrev pub is_soon : Seconds → Bool
is_soon (seconds s) = ltb s refresh_before_expiry_s
is_soon nan = false

-- the polling fallback of frontend/js/app.js, once a minute
unfoldable pub poll : ℕ → Running → Running
unfolding is_token_expired seconds_until_expiry do_silent_refresh
poll now p =
    if is_token_expired now p.session
    then p
    else if is_soon (seconds_until_expiry now p.session)
    then do_silent_refresh now p
    else p
