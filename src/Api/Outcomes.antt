-- ===== src/Api/Outcomes.antt =====
-- What the callers of `request` can rely on.
use ise_endpoint_portal.Js.Text.{Text}
use ise_endpoint_portal.Session.{Session}
