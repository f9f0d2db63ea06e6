-- ===== src/Api/Reply.antt =====
-- frontend/js/api.js: `request` and `requestTimed`, from what `fetch` brings to what the caller
-- gets, with the session behind it.
use ise_endpoint_portal.Prelude.{
  ℕ, Bool, false, not, ◌&&◌, ◌++◌, Option, none, some, if◌then◌else◌, ltb, leb, ◌==◌,
}
use ise_endpoint_portal.Js.Text.{Text, codes, ◌===◌}
use ise_endpoint_portal.Session.{Session, clear}

-- What is read of a `Response`: `body` is its text, `none` where reading it rejects; `cache_age` is the header's number in milliseconds, `none` for a missing
-- or negative one or `NaN`.
pub record Response (J : Type 0) : Type 0 where
  pub status : ℕ
  pub body : Option Text
  pub cache_age : Option ℕ
  pub from_cache : Option Text

-- What the promise brings: a value or `null`, an `Error` with its message, or an error of `fetch` or of
-- reading the body (the network, the timeout), or of `JSON.parse`, that goes through to the caller.
pub data Outcome (A : Type 0) : Type 0 where
  answer : A → Outcome A
  error : Text → Outcome A
  unreachable : Outcome A
  unreadable_reply : Outcome A

-- the outcome without whether it came from the cache
abbrev pub value_only : {A : Type 0} → Outcome (A × Bool) → Outcome A
value_only (answer (a, b)) = answer a
value_only (error m) = error m
value_only unreachable = unreachable
value_only unreadable_reply = unreadable_reply

-- `fromCacheHdr !== null ? fromCacheHdr === "true" : (cacheAge >= 0 && cacheAge < 5)`
abbrev pub is_from_cache : Option Text → Option ℕ → Bool
is_from_cache (some hdr) age = hdr === codes "true"
is_from_cache none none = false
is_from_cache none (some age) = ltb age 5000

abbrev pub with_cache : {A : Type 0} → Bool → Outcome A → Outcome (A × Bool)
with_cache b (answer a) = answer (a, b)
with_cache b (error m) = error m
with_cache b unreachable = unreachable
with_cache b unreadable_reply = unreadable_reply

-- What a call leaves: the session, how often the handler for logged-out users ran, and the outcome.
pub record Settled (A : Type 0) : Type 0 where
  pub session : Session
  pub unauthorized : ℕ
  pub outcome : Outcome A

-- `res.ok`
abbrev pub is_ok : ℕ → Bool
is_ok status = leb 200 status && ltb status 300

-- `_timeout ?? 30_000`
abbrev pub timeout_ms : Option ℕ → ℕ
timeout_ms none = 30000
timeout_ms (some t) = t

-- `parse` is `JSON.parse`; `detail_of` is the text of a truthy `.detail` of what was parsed; `show`
-- is the text of a number. `has_handler` is whether `setUnauthorizedHandler` was called.
module _ {J : Type 0} (parse : Text → Option J) (detail_of : J → Option Text) (show : ℕ → Text)
    (has_handler : Bool) where
  -- `try { const p = JSON.parse(detail); detail = p.detail || detail; } catch {}`
  unfoldable pub error_detail : Text → Text
  error_detail s = elim (parse s) [
    | none ↦ s
    | some j ↦ elim (detail_of j) [ none ↦ s | some d ↦ d ]
  ]

  abbrev pub parsed : Option J → Outcome (Option J)
  parsed none = unreadable_reply
  parsed (some j) = answer (some j)

  -- `await res.text()` of an error, and what is thrown then
  abbrev pub refusal : ℕ → Option Text → Outcome (Option J)
  refusal status none = unreachable
  refusal status (some s) = error (show status ++ (codes ": " ++ error_detail s))

  -- `res.json()`
  abbrev pub read_json : Option Text → Outcome (Option J)
  read_json none = unreachable
  read_json (some s) = parsed (parse s)

  abbrev pub outcome_of : Response J → Outcome (Option J)
  outcome_of res =
      if not (is_ok res.status)
      then refusal res.status res.body
      else if res.status == 204
      then answer none
      else read_json res.body

  -- `request`; without a response `fetch` has thrown
  unfoldable pub request : Session → Option (Response J) → Settled (Option J)
  unfolding clear error_detail
  request s none = record { session = s; unauthorized = 0; outcome = unreachable }
  request s (some res) =
      if res.status == 401
      then record {
        session = clear s;
        unauthorized = if has_handler then 1 else 0;
        outcome = error (codes "401: ikke logget ind");
      }
      else record { session = s; unauthorized = 0; outcome = outcome_of res }

  abbrev pub timed_outcome : Response J → Outcome (Option J × Bool)
  timed_outcome res = with_cache (is_from_cache res.from_cache res.cache_age) (outcome_of res)

  -- `requestTimed`: the value and whether it came from the cache; its times are not modelled
  unfoldable pub request_timed : Session → Option (Response J) → Settled (Option J × Bool)
  unfolding clear error_detail ◌===◌
  request_timed s none = record { session = s; unauthorized = 0; outcome = unreachable }
  request_timed s (some res) =
      if res.status == 401
      then record {
        session = clear s;
        unauthorized = if has_handler then 1 else 0;
        outcome = error (codes "401: ikke logget ind");
      }
      else record { session = s; unauthorized = 0; outcome = timed_outcome res }

  -- the own `fetch` of `uploadPxGridPfx` and `uploadPxGridCert`, which does not look for 401
  unfoldable pub upload : Session → Option (Response J) → Settled (Option J)
  unfolding error_detail
  upload s none = record { session = s; unauthorized = 0; outcome = unreachable }
  upload s (some res) = record {
    session = s;
    unauthorized = 0;
    outcome = if not (is_ok res.status) then refusal res.status res.body else read_json res.body;
  }
