-- ===== src/Routes/Tests.antt =====
-- Runs of the router, and the theorems at concrete inputs.
use ise_endpoint_portal.Prelude.{◌⊎◌, ◌≡◌, refl, true, false, [], Option, none, some}
use ise_endpoint_portal.Js.Text.{Text, codes, ◌===◌, includes_text}
use ise_endpoint_portal.Session.{Session, User, value, at, get_user, is_token_expired}
use ise_endpoint_portal.Session.Refresh.{IsLoggedOut}
use ise_endpoint_portal.Routes.{
  rendered, login, crashed, inherited, routes, find_route, route_name, current_route, render_view,
  landing, status, boot, is_chromeless_route,
}
use ise_endpoint_portal.Routes.Access.{
  IsAllowed, known_roles, render_view-known_role, render_view-rendered, boot_lem,
}

abbrev with_role : Text → User
with_role role = record { username = codes "jgl"; role = role }

current_route-denied :
    (render_view (codes "#/logs") (some (with_role (codes "viewer"))) ≡ rendered (codes "browse"))
    × (render_view (codes "#/logs") (some (with_role (codes "admin"))) ≡ rendered (codes "logs"))
    × (render_view [] none ≡ login)
unfolding render_view current_route route_name find_route includes_text ◌===◌
current_route-denied = (refl, refl, refl)

-- The address of an inherited property throws for a user who is logged in.
render_view_inherited :
    render_view (codes "#/constructor") (some (with_role (codes "admin"))) ≡ crashed
unfolding render_view current_route route_name find_route includes_text ◌===◌
render_view_inherited = refl

landing-registrant :
    landing (codes "#/logs") (with_role (codes "registrant")) ≡ some (codes "#/register")
unfolding landing includes_text
landing-registrant = refl

is_chromeless_route-tests :
    (is_chromeless_route (codes "#/register") none ≡ true)
    × (is_chromeless_route (codes "#/register") (some (with_role (codes "admin"))) ≡ false)
unfolding is_chromeless_route
is_chromeless_route-tests = (refl, refl)

viewer_known : includes_text known_roles (codes "viewer") ≡ true
unfolding includes_text ◌===◌
viewer_known = refl

logs_own :
    find_route routes (route_name (codes "#/logs") (some (with_role (codes "viewer")))) ≡ inherited
    → ⊥
unfolding find_route route_name ◌===◌
logs_own = λ h. cc

render_view-known_role_example :
    (name : Text) × (render_view (codes "#/logs") (some (with_role (codes "viewer")))
      ≡ rendered name)
    × IsAllowed name (with_role (codes "viewer"))
render_view-known_role_example =
    render_view-known_role (codes "#/logs") (with_role (codes "viewer")) viewer_known logs_own

rendered_preferences :
    render_view (codes "#/user-prefs") (some (with_role (codes "registrant")))
    ≡ rendered (codes "user-prefs")
unfolding render_view current_route route_name find_route includes_text ◌===◌
rendered_preferences = refl

render_view-rendered_example :
    (u : User) × (some (with_role (codes "registrant")) ≡ some u) × IsAllowed (codes "user-prefs") u
render_view-rendered_example =
    render_view-rendered (codes "#/user-prefs") (codes "user-prefs")
      (some (with_role (codes "registrant"))) rendered_preferences

abbrev hour : Session
hour = record {
  meta = value (record { expires_at = some (at 3_600_000); auth_type = codes "local" });
  user = value (with_role (codes "admin"));
  timer = none;
}

boot_lem_example :
    (((boot 0 (status true none) hour).1 ≡ true)
      × ((u : User) × (get_user hour ≡ some u))
      × (is_token_expired 0 hour ≡ false)
      × ((named : Option User) × (status true none ≡ status true named)))
    ⊎ (((boot 0 (status true none) hour).1 ≡ false)
        × IsLoggedOut (boot 0 (status true none) hour).0)
boot_lem_example = boot_lem 0 (status true none) hour
