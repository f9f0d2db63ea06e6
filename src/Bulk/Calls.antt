-- ===== src/Bulk/Calls.antt =====
-- frontend/js/views/browse-bulk.js: the actions that call the backend for the selected endpoints and
-- report what became of them.
use ise_endpoint_portal.Prelude.{
  ℕ, zero, suc, ◌+◌, ◌≤◌, ◌≡◌, refl, ◌∙◌, Bool, true, false, List, [], ◌∷◌, ◌++◌, Option, none,
  some, if◌then◌else◌, map, length, take, ltb, arith, length-append,
}
use ise_endpoint_portal.Js.Text.{Text, codes, truthy}
use ise_endpoint_portal.Bulk.Rows.{Class, result_class, Reply, fail_count}

-- what `api.coaDisconnect` brings for an endpoint: an error, or a reply whose texts may be missing
pub data Disconnect : Type 0 where
  threw : (message : Text) → Disconnect
  replied : (ok : Bool) → (mac message : Option Text) → Disconnect

abbrev pub text_or : Text → Option Text → Text
text_or d none = d
text_or d (some []) = d
text_or d (some (c ∷ s)) = c ∷ s

-- the counters of the loop, and the lines on what failed
pub record Disconnected : Type 0 where
  pub ok : ℕ
  pub fail : ℕ
  pub failures : List Text

abbrev pub failed : Text → Disconnected → Disconnected
failed line d = record { ok = d.ok; fail = suc d.fail; failures = d.failures ++ line ∷ [] }

-- one round; `word` is the translated word for a failure
unfoldable pub disconnect_one : (word : Text) → Text → Disconnect → Disconnected → Disconnected
disconnect_one word id (threw m) d = failed (id ++ (codes ": " ++ m)) d
disconnect_one word id (replied ok mac m) d =
    if ok
    then record d { ok = suc d.ok }
    else failed (text_or id mac ++ (codes ": " ++ text_or word m)) d

unfoldable pub disconnect_each :
    (word : Text) → (call : Text → Disconnect) → List Text → Disconnected → Disconnected
unfolding disconnect_one
disconnect_each word call [] d = d
disconnect_each word call (id ∷ ids) d =
    disconnect_each word call ids (disconnect_one word id (call id) d)

abbrev pub disconnected_none : Disconnected
disconnected_none = record { ok = 0; fail = 0; failures = [] }

-- The message: its colour, the counts that are not 0, and the first lines.
pub record Summary : Type 0 where
  pub class : Class
  pub ok : Option ℕ
  pub fail : Option ℕ
  pub lines : List Text

abbrev pub nonzero : ℕ → Option ℕ
nonzero n = if ltb 0 n then some n else none

-- the handler of the disconnect button, once the user has confirmed
unfoldable pub bulk_disconnect : (word : Text) → (call : Text → Disconnect) → List Text → Summary
unfolding disconnect_each result_class
bulk_disconnect word call ids =
    let d = disconnect_each word call ids disconnected_none in
    record {
      class = result_class d.ok d.fail;
      ok = nonzero d.ok;
      fail = nonzero d.fail;
      lines = take 5 d.failures;
    }

-- The message of a bulk call: an error, or the counts that the reply has with their colour.
pub data BulkMessage : Type 0 where
  bulk_error : Text → BulkMessage
  bulk_counts : Class → (ok fail : ℕ) → BulkMessage

-- what the handlers of the bulk calls say: reauthentication, templates and decommissioning
unfoldable pub bulk_message : (error : Option Text) → Reply → BulkMessage
unfolding result_class
bulk_message (some m) reply = bulk_error m
bulk_message none reply =
    bulk_counts (result_class reply.ok_count (fail_count reply)) reply.ok_count (fail_count reply)

-- a result of `api.batchSimulate`; missing texts are empty
pub record Simulated : Type 0 where
  pub id : Text
  pub mac : Text
  pub error : Text
  pub matched : Bool
  pub partial_match : Bool
  pub matched_rule : Text
  pub matched_profile : Text

-- a line of the table
pub data Line : Type 0 where
  error_line : (mac error : Text) → Line
  result_line : (mac rule profile : Text) → (matched partial : Bool) → Line

abbrev pub dash_or : Text → Text
dash_or s = if truthy s then s else 0x2014 ∷ []

unfoldable pub simulation_line : Simulated → Line
simulation_line r =
    let mac = if truthy r.mac then r.mac else r.id in
    if truthy r.error
    then error_line mac r.error
    else result_line mac (dash_or r.matched_rule) (dash_or r.matched_profile) r.matched
        r.partial_match

unfoldable pub simulation_table : List Simulated → List Line
unfolding simulation_line
simulation_table results = map simulation_line results

-- the counters tell of each endpoint once, and each failure has its line
abbrev IsCounted : Disconnected → ℕ → Type 0
IsCounted d n = (d.ok + d.fail ≡ n) × (length d.failures ≡ d.fail)

failed-IsCounted :
    (line : Text) (d : Disconnected) (n : ℕ) → IsCounted d n → IsCounted (failed line d) (suc n)
failed-IsCounted line d n (h, k) =
    (omega (arith, h), length-append d.failures (line ∷ []) ∙ omega (arith, k))

disconnect_one-IsCounted :
    (word id : Text) (o : Disconnect) (d : Disconnected) (n : ℕ)
    → IsCounted d n
    → IsCounted (disconnect_one word id o d) (suc n)
unfolding disconnect_one
disconnect_one-IsCounted word id (threw m) d n h = failed-IsCounted _ d n h
disconnect_one-IsCounted word id (replied true mac m) d n (h, k) = (omega (arith, h), k)
disconnect_one-IsCounted word id (replied false mac m) d n h = failed-IsCounted _ d n h

disconnect_each-IsCounted :
    (word : Text) (call : Text → Disconnect) (ids : List Text) (d : Disconnected) (n : ℕ)
    → IsCounted d n
    → IsCounted (disconnect_each word call ids d) (n + length ids)
unfolding disconnect_each
disconnect_each-IsCounted word call [] d n (h, k) = (omega (arith, h), k)
disconnect_each-IsCounted word call (id ∷ ids) d n h =
    let (a, b) =
      disconnect_each-IsCounted word call ids (disconnect_one word id (call id) d) (suc n)
        (disconnect_one-IsCounted word id (call id) d n h) in
    (omega (arith, a), b)

-- A disconnection tells of each selected endpoint once, as disconnected or as failed, and has a line for
-- each failure, of which the message shows at most five.
pub disconnect_each-counts :
    (word : Text) (call : Text → Disconnect) (ids : List Text)
    → ((disconnect_each word call ids disconnected_none).ok
          + (disconnect_each word call ids disconnected_none).fail
        ≡ length ids)
      × (length (disconnect_each word call ids disconnected_none).failures
          ≡ (disconnect_each word call ids disconnected_none).fail)
      × (length (bulk_disconnect word call ids).lines ≤ 5)
unfolding bulk_disconnect
disconnect_each-counts word call ids =
    let (a, b) = disconnect_each-IsCounted word call ids disconnected_none 0 (omega arith, refl) in
    (omega (arith, a), b, length-take 5 (disconnect_each word call ids disconnected_none).failures)
  where
    length-take : (n : ℕ) (xs : List Text) → length (take n xs) ≤ n
    length-take zero xs = omega arith
    length-take (suc n) [] = omega arith
    length-take (suc n) (x ∷ xs) = omega (arith, length-take n xs)
