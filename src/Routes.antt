-- ===== src/Routes.antt =====
-- frontend/js/app.js: the routes and their roles, the view that is shown, the landing page after a
-- login, and what `boot` decides.
pub mod Access
mod Tests
use ise_endpoint_portal.Prelude.{
  ℕ, Bool, true, false, not, ◌||◌, ◌&&◌, List, [], ◌∷◌, ◌++◌, Option, none, some, if◌then◌else◌,
}
use ise_endpoint_portal.Js.Text.{Text, codes, ◌===◌, includes_text, starts_with, truthy}
use ise_endpoint_portal.Session.{
  User, Session, get_user, clear, save, is_token_expired, schedule_token_refresh,
}

abbrev pub Roles : Type 0
Roles = List Text

abbrev pub everyone : Roles
everyone = codes "admin" ∷ codes "editor" ∷ codes "editor-psk" ∷ codes "viewer" ∷ []

abbrev pub admins : Roles
admins = codes "admin" ∷ []

abbrev pub editors : Roles
editors = codes "admin" ∷ codes "editor" ∷ []

abbrev pub all_editors : Roles
all_editors = codes "admin" ∷ codes "editor" ∷ codes "editor-psk" ∷ []

-- the `routes` object: each name with the roles that may see it
abbrev pub routes : List (Text × Roles)
routes =
    (codes "dashboard", everyone)
    ∷ (codes "import", all_editors)
    ∷ (codes "browse", everyone)
    ∷ (codes "attributes", editors)
    ∷ (codes "dacls", editors)
    ∷ (codes "policy", everyone)
    ∷ (codes "logs", admins)
    ∷ (codes "audit", everyone)
    ∷ (codes "metrics", admins)
    ∷ (codes "lifecycle", admins)
    ∷ (codes "trends", everyone)
    ∷ (codes "register", all_editors ++ (codes "registrant" ∷ codes "registrant_templet" ∷ []))
    ∷ (codes "settings", codes "admin" ∷ codes "editor-psk" ∷ [])
    ∷ (codes "user-prefs", everyone ++ (codes "registrant" ∷ codes "registrant_templet" ∷ []))
    ∷ (codes "csv-template", all_editors)
    ∷ []

-- Names that every object inherits: `routes[name]` is then a value without `roles`.
abbrev pub inherited_names : List Text
inherited_names =
    codes "constructor"
    ∷ codes "__proto__"
    ∷ codes "hasOwnProperty"
    ∷ codes "isPrototypeOf"
    ∷ codes "propertyIsEnumerable"
    ∷ codes "toLocaleString"
    ∷ codes "toString"
    ∷ codes "valueOf"
    ∷ codes "__defineGetter__"
    ∷ codes "__defineSetter__"
    ∷ codes "__lookupGetter__"
    ∷ codes "__lookupSetter__"
    ∷ []

-- `routes[name]`
pub data Lookup : Type 0 where
  undefined inherited : Lookup
  own : Roles → Lookup

unfoldable pub find_route : List (Text × Roles) → Text → Lookup
find_route [] name = if includes_text inherited_names name then inherited else undefined
find_route ((n, roles) ∷ rest) name =
    let later = find_route rest name in if n === name then own roles else later

-- `s.replace("#/", "")`: the first occurrence alone
unfoldable pub remove_mark : Text → Text
remove_mark [] = []
remove_mark (c ∷ []) = c ∷ []
remove_mark (c ∷ d ∷ s) =
    let rest = remove_mark (d ∷ s) in if (c ∷ d ∷ []) === codes "#/" then s else c ∷ rest

abbrev pub is_limited_role : Text → Bool
is_limited_role role = role === codes "registrant" || role === codes "registrant_templet"

abbrev pub is_limited : Option User → Bool
is_limited none = false
is_limited (some u) = is_limited_role u.role

abbrev pub fallback : Option User → Text
fallback user = if is_limited user then codes "register" else codes "browse"

-- The name of a route, or the `TypeError` that reading `roles` of an inherited value throws.
pub data Route : Type 0 where
  route : Text → Route
  type_error : Route

-- `if (user && !routes[hash].roles.includes(user.role)) return fallback`
abbrev pub checked_route : Text → Lookup → Option User → Route
checked_route hash undefined user = route (fallback user)
checked_route hash inherited none = route hash
checked_route hash inherited (some u) = type_error
checked_route hash (own roles) none = route hash
checked_route hash (own roles) (some u) =
    if includes_text roles u.role then route hash else route (fallback (some u))

-- the text that names the route: `location.hash`, or the fallback where it is empty
unfoldable pub route_name : Text → Option User → Text
unfolding remove_mark
route_name [] user = remove_mark (codes "#/" ++ fallback user)
route_name (c ∷ s) user = remove_mark (c ∷ s)

unfoldable pub current_route : Text → Option User → Route
current_route hash user =
    let name = route_name hash user in checked_route name (find_route routes name) user

-- `isChromelessRoute`
unfoldable pub is_chromeless_route : Text → Option User → Bool
unfolding remove_mark ◌===◌
is_chromeless_route hash user =
    remove_mark hash === codes "register"
    && elim user [ none ↦ true | some u ↦ is_limited_role u.role ]

-- what `updateNavVisibility` does to one link
pub data Link : Type 0 where
  as_it_is throws : Link
  displayed : Bool → Link

unfoldable pub nav_link : Text → User → Link
unfolding find_route ◌===◌ includes_text
nav_link view user = elim (find_route routes view) [
  | undefined ↦ as_it_is
  | inherited ↦ throws
  | own roles ↦ displayed (includes_text roles user.role)
]

-- what `renderView` shows
pub data View : Type 0 where
  login : View
  no_access : Text → View
  rendered : Text → View
  crashed : View

abbrev pub shown : Text → Lookup → User → View
shown name undefined u = crashed
shown name inherited u = crashed
shown name (own roles) u = if includes_text roles u.role then rendered name else no_access u.role

unfoldable pub render_view : Text → Option User → View
render_view hash none = login
render_view hash (some u) = elim (current_route hash (some u)) [
  | type_error ↦ crashed
  | route name ↦ shown name (find_route routes name) u
]

abbrev pub hash_for : Text → Text
hash_for name = codes "#/" ++ name

-- `!routes[…]?.roles.includes(role)`; `none` is the `TypeError` at an inherited value
abbrev pub lacks_role : Lookup → Text → Option Bool
lacks_role undefined role = some true
lacks_role inherited role = none
lacks_role (own roles) role = some (not (includes_text roles role))

-- `location.hash` after a login, `none` if the callback throws
unfoldable pub landing : Text → User → Option Text
unfolding find_route remove_mark ◌===◌ includes_text
landing hash u =
    if not (truthy hash) || hash === codes "#/"
    then some (hash_for (fallback (some u)))
    else if is_limited_role u.role
    then elim (lacks_role (find_route routes (remove_mark hash)) u.role) [
      | none ↦ none
      | some lacks ↦ some (if lacks then hash_for (codes "register") else hash)
    ]
    else some hash

-- the reply of `api.authStatus()` in `boot`
pub data AuthStatus : Type 0 where
  unreachable : AuthStatus
  status : Bool → Option User → AuthStatus

-- What `boot` does with a stored session, once the timer of the token is set: its new value, and
-- whether views are rendered.
abbrev pub booted : ℕ → AuthStatus → Session → Session × Bool
booted now reply s = elim (get_user s) [
  | none ↦ (clear s, false)
  | some u ↦ if is_token_expired now s then (clear s, false) else elim reply [
    | unreachable ↦ (clear s, false)
    | status authenticated named ↦
        if authenticated then (save none named s, true) else (clear s, false)
  ]
]

-- `boot`
unfoldable pub boot : ℕ → AuthStatus → Session → Session × Bool
unfolding is_token_expired clear save schedule_token_refresh
boot now reply s = booted now reply (schedule_token_refresh now s)
