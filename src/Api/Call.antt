-- ===== src/Api/Call.antt =====
-- Every call of frontend/js/api.js that goes through `request` or `requestTimed`.
use ise_endpoint_portal.Prelude.{ℕ}
use ise_endpoint_portal.Js.Text.{Text}
use ise_endpoint_portal.Api.{Request}
use ise_endpoint_portal.Api.Endpoints.{EndpointCall, endpoint_request}
use ise_endpoint_portal.Api.Settings.{SettingCall, setting_request}
use ise_endpoint_portal.Api.Portal.{PortalCall, portal_request}
use ise_endpoint_portal.Api.Admin.{AdminCall, admin_request}
use ise_endpoint_portal.Api.Policy.{PolicyCall, policy_request}
use ise_endpoint_portal.Api.Bulk.{BulkCall, bulk_request}

pub data Call (J : Type 0) : Type 0 where
  endpoints : EndpointCall J → Call J
  settings : SettingCall J → Call J
  portal : PortalCall J → Call J
  admin : AdminCall J → Call J
  policy : PolicyCall J → Call J
  bulk : BulkCall J → Call J

-- the object `api`
abbrev pub api : {J : Type 0} → (Text → Text) → (ℕ → Text) → Call J → Request J
api encode show (endpoints c) = endpoint_request encode show c
api encode show (settings c) = setting_request encode show c
api encode show (portal c) = portal_request encode show c
api encode show (admin c) = admin_request encode show c
api encode show (policy c) = policy_request encode show c
api encode show (bulk c) = bulk_request encode show c
