-- ===== src/Api/Tests.antt =====
-- Concrete calls and replies.
use ise_endpoint_portal.Prelude.{ℕ, Bool, Option, none, some, ◌==◌, if◌then◌else◌}
use ise_endpoint_portal.Js.Text.{Text, codes}
use ise_endpoint_portal.Session.{Session, Running, absent, value}
use ise_endpoint_portal.Api.Reply.{Response}

abbrev held : Session
held = record {
  meta = absent;
  user = value (record { username = codes "ib"; role = codes "admin" });
  timer = some 5;
}

abbrev reply_of : ℕ → Response Bool
reply_of n = record { status = n; body = some (codes "no"); cache_age = none; from_cache = none }

abbrev no_json : Text → Option Bool
no_json s = none

abbrev no_detail : Bool → Option Text
no_detail j = none

abbrev status_text : ℕ → Text
status_text n = if n == 401 then codes "401" else codes "500"

abbrev quiet : Running
quiet = record { session = held; calls = 0 }
