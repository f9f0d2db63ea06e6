-- ===== src/Api.antt =====
-- frontend/js/api.js: the requests of the frontend to its backend. This file has what a call
-- makes of its arguments; the calls stand in the children, in the source's order. The type J is
-- that of the caller's values that are only passed on to `JSON.stringify` or `FormData`.
pub mod Endpoints
pub mod Settings
pub mod Portal
pub mod Admin
pub mod Policy
pub mod Bulk
pub mod Call
pub mod Reply
pub mod Outcomes
mod Tests
use ise_endpoint_portal.Prelude.{
  ℕ, Bool, true, false, List, [], ◌∷◌, ◌++◌, Option, none, some, if◌then◌else◌, map, filter,
}
use ise_endpoint_portal.Js.Dict.{Dict}
use ise_endpoint_portal.Js.Text.{Text, codes, join, truthy}

pub data Method : Type 0 where
  get post put delete : Method

-- the value of a field in the body
pub data Value (J : Type 0) : Type 0 where
  raw : J → Value J
  text : Text → Value J
  flag : Bool → Value J
  number : ℕ → Value J
  texts : List Text → Value J

-- nothing, `JSON.stringify(v)`, `JSON.stringify({ … })`, or a `FormData`
pub data Body (J : Type 0) : Type 0 where
  no_body : Body J
  json : J → Body J
  object : Dict (Value J) → Body J
  form : Dict (Value J) → Body J

-- the arguments of `request`, or of `requestTimed` where `timed` holds
pub record Request (J : Type 0) : Type 0 where
  pub timed : Bool
  pub path : Text
  pub method : Method
  pub body : Body J
  pub no_content_type : Bool
  pub timeout : Option ℕ

-- `request(path)`; the method of `fetch` without one is GET
abbrev pub fetch : {J : Type 0} → Text → Request J
fetch p = record {
  timed = false;
  path = p;
  method = get;
  body = no_body;
  no_content_type = false;
  timeout = none;
}

-- `request(path, { method, body })`
abbrev pub send : {J : Type 0} → Method → Text → Body J → Request J
send m p b = record {
  timed = false;
  path = p;
  method = m;
  body = b;
  no_content_type = false;
  timeout = none;
}

-- `parts.length ? "?" + parts.join("&") : ""`
unfoldable pub query_string : List Text → Text
unfolding join
query_string [] = []
query_string (p ∷ ps) = codes "?" ++ join (codes "&") (p ∷ ps)

-- `encodeURIComponent` and the text of a number are parameters.
module _ (encode : Text → Text) where
  -- `if (v) parts.push(`key=${encodeURIComponent(v)}`)`
  abbrev pub part_if : Text → Text → List Text
  part_if key v = if truthy v then (key ++ (codes "=" ++ encode v)) ∷ [] else []

  -- `for (const f of filters) if (f) parts.push(…)`
  abbrev pub filter_parts : List Text → List Text
  filter_parts [] = []
  filter_parts (f ∷ fs) = part_if (codes "filter") f ++ filter_parts fs

  unfoldable pub all_parts : Text → List Text → Text → List Text
  all_parts search filters q =
      part_if (codes "search") search ++ (filter_parts filters ++ part_if (codes "q") q)

  -- the parameters of `listAuditEvents`: missing and empty ones are left out
  unfoldable pub param_parts : Dict (Option Text) → List Text
  param_parts [] = []
  param_parts ((k, none) ∷ ps) = param_parts ps
  param_parts ((k, some v) ∷ ps) = part_if k v ++ param_parts ps

  unfoldable pub name_parts : List Text → List Text
  name_parts names = map (λ n. codes "names=" ++ encode n) names

  module _ (show : ℕ → Text) where
    unfoldable pub page_parts : ℕ → ℕ → Text → List Text → List Text
    page_parts page size search filters =
        (codes "page=" ++ show page)
        ∷ (codes "size=" ++ show size)
        ∷ (part_if (codes "search") search ++ filter_parts filters)

    unfoldable pub log_parts : ℕ → Text → Text → List Text
    log_parts lines level search =
        (codes "lines=" ++ show lines)
        ∷ (part_if (codes "level") level ++ part_if (codes "search") search)
