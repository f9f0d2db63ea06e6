-- ===== src/Routes/Access.antt =====
-- Who sees which view.
use ise_endpoint_portal.Prelude.{
  all, ℕ, ◌≡◌, refl, ◌∙◌, ◌⊎◌, sym, Option-cases, inl, inr, Bool, true, false, not, ◌||◌, List, [],
  ◌∷◌, ◌++◌, Option, none, some, arith, Bool-cases,
}
use mathlib.Core.Path.{subst}
use ise_endpoint_portal.Js.Text.{Text, codes, ◌===◌, includes_text}
use ise_endpoint_portal.Js.Text.Laws.{===_iff, ===_comm}
use ise_endpoint_portal.Session.{schedule_token_refresh, User, Session, get_user, is_token_expired}
use ise_endpoint_portal.Session.Refresh.{IsLoggedOut}
use ise_endpoint_portal.Routes.{
  Roles, routes, everyone, Lookup, undefined, inherited, own, find_route, route_name, fallback,
  is_limited_role, Route, route, type_error, checked_route, current_route, rendered, crashed, shown,
  render_view, AuthStatus, unreachable, status, boot,
}

abbrev pub known_roles : Roles
known_roles = everyone ++ (codes "registrant" ∷ codes "registrant_templet" ∷ [])

-- a route of the table whose roles have the user's
pub record IsAllowed (name : Text) (u : User) : Type 0 where
  pub roles : Roles
  pub listed : find_route routes name ≡ own roles
  pub included : includes_text roles u.role ≡ true

find-browse : find_route routes (codes "browse") ≡ own everyone
unfolding find_route ◌===◌
find-browse = refl

find-register :
    find_route routes (codes "register")
    ≡ own (
        codes "admin"
        ∷ codes "editor"
        ∷ codes "editor-psk"
        ∷ codes "registrant"
        ∷ codes "registrant_templet"
        ∷ [])
unfolding find_route ◌===◌
find-register = refl

fallback-IsAllowed :
    (u : User) → includes_text known_roles u.role ≡ true → IsAllowed (fallback (some u)) u
unfolding includes_text
fallback-IsAllowed u known = elim (Bool-cases (is_limited_role u.role)) [
  | inl limited ↦ rw limited (record {
    roles = _;
    listed = find-register;
    included =
        ground (
          arith,
          ===_comm u.role (codes "registrant"),
          ===_comm u.role (codes "registrant_templet"),
        );
  })
  | inr free ↦ rw free (record {
    roles = _;
    listed = find-browse;
    included =
        ground (
          arith,
          ===_comm u.role (codes "registrant"),
          ===_comm u.role (codes "registrant_templet"),
        );
  })
]

checked_route-IsAllowed :
    (name : Text) (l : Lookup) (u : User)
    → find_route routes name ≡ l
    → (l ≡ inherited → ⊥)
    → includes_text known_roles u.role ≡ true
    → (n : Text) × (checked_route name l (some u) ≡ route n) × IsAllowed n u
checked_route-IsAllowed name undefined u e clean known = (_, refl, fallback-IsAllowed u known)
checked_route-IsAllowed name inherited u e clean known = absurd (clean refl)
checked_route-IsAllowed name (own roles) u e clean known =
    elim (Bool-cases (includes_text roles u.role)) [
      | inl has ↦ (name, rw has, record { roles = roles; listed = e; included = has })
      | inr lacks ↦ (fallback (some u), rw lacks, fallback-IsAllowed u known)
    ]

current_route-checked :
    (hash : Text) (u : User)
    → current_route hash (some u)
      ≡ checked_route
          (route_name hash (some u))
          (find_route routes (route_name hash (some u)))
          (some u)
unfolding current_route
current_route-checked hash u = refl

render_view-routed :
    (hash n : Text) (u : User)
    → current_route hash (some u) ≡ route n
    → render_view hash (some u) ≡ shown n (find_route routes n) u
unfolding render_view
render_view-routed hash n u e = rw (e, render_view)

shown-rendered :
    (n : Text) (u : User) → IsAllowed n u → shown n (find_route routes n) u ≡ rendered n
shown-rendered n u a = rw (a.listed, a.included)

-- A user with one of the portal's roles is always shown a view that lists the role, whatever the
-- address says, unless it names a property that every JavaScript object inherits.
pub render_view-known_role :
    (hash : Text) (u : User)
    → includes_text known_roles u.role ≡ true
    → (find_route routes (route_name hash (some u)) ≡ inherited → ⊥)
    → (name : Text) × (render_view hash (some u) ≡ rendered name) × IsAllowed name u
render_view-known_role hash u known clean =
    let (n, e, allowed) = checked_route-IsAllowed (route_name hash (some u)) _ u refl clean known in
    (
      n,
      render_view-routed hash n u (current_route-checked hash u ∙ e) ∙ shown-rendered n u allowed,
      allowed,
    )

shown-IsAllowed :
    (name other : Text) (l : Lookup) (u : User)
    → find_route routes name ≡ l
    → shown name l u ≡ rendered other
    → (name ≡ other) × IsAllowed name u
shown-IsAllowed name other undefined u e h = cc
shown-IsAllowed name other inherited u e h = cc
shown-IsAllowed name other (own roles) u e h = elim (Bool-cases (includes_text roles u.role)) [
  | inl has ↦ (ground arith, record { roles = roles; listed = e; included = has })
  | inr lacks ↦ ground arith
]

routed-IsAllowed :
    (r : Route) (name : Text) (u : User)
    → (elim r [ type_error ↦ crashed | route n ↦ shown n (find_route routes n) u ]) ≡ rendered name
    → IsAllowed name u
routed-IsAllowed type_error name u h = cc
routed-IsAllowed (route n) name u h =
    let (same, allowed) = shown-IsAllowed n name (find_route routes n) u refl h in
    subst (λ m. IsAllowed m u) same allowed

-- A view is rendered only for a stored user whose role is listed for that view, whatever the
-- address says and whatever the role is.
pub render_view-rendered :
    (hash name : Text) (user : Option User)
    → render_view hash user ≡ rendered name
    → (u : User) × (user ≡ some u) × IsAllowed name u
unfolding render_view
render_view-rendered hash name none h = cc
render_view-rendered hash name (some u) h =
    (u, refl, routed-IsAllowed (current_route hash (some u)) name u h)

-- What a test says of each entry of a table it says of each route that is found.
find_route-all :
    (q : Text → Roles → Bool) (table : List (Text × Roles)) (name : Text) (roles : Roles)
    → all (λ e. q e.0 e.1) table ≡ true
    → find_route table name ≡ own roles
    → q name roles ≡ true
unfolding find_route
find_route-all q [] name roles h e = ground arith
find_route-all q ((n, rs) ∷ table) name roles h e = elim (Bool-cases (n === name)) [
  | inl same ↦
      let found : own rs ≡ own roles = rw same at e in ground (arith, (===_iff n name).0 same)
  | inr other ↦ find_route-all q table name roles (ground arith) (rw other at e)
]

-- What a registrant may see.
abbrev pub registrant_view : Text → Bool
registrant_view name = name === codes "register" || name === codes "user-prefs"

-- a route that lists the role is one that a registrant may see
abbrev harmless : Text → Text → Roles → Bool
harmless role name roles = not (includes_text roles role) || registrant_view name

harmless-registrant : all (λ e. harmless (codes "registrant") e.0 e.1) routes ≡ true
unfolding includes_text ◌===◌
harmless-registrant = refl

harmless-registrant_templet : all (λ e. harmless (codes "registrant_templet") e.0 e.1) routes ≡ true
unfolding includes_text ◌===◌
harmless-registrant_templet = refl

harmless-limited :
    (role : Text) → is_limited_role role ≡ true → all (λ e. harmless role e.0 e.1) routes ≡ true
harmless-limited role h = elim (Bool-cases (role === codes "registrant")) [
  | inl e ↦ rw ((===_iff role (codes "registrant")).0 e) harmless-registrant
  | inr e ↦
      rw ((===_iff role (codes "registrant_templet")).0 (ground arith)) harmless-registrant_templet
]

-- A user with one of the two registrant roles is shown the registration page, the preferences, or
-- no view at all.
render_view-registrant :
    (hash name : Text) (u : User)
    → is_limited_role u.role ≡ true
    → render_view hash (some u) ≡ rendered name
    → registrant_view name ≡ true
unfolding render_view
render_view-registrant hash name u limited h =
    let a = routed-IsAllowed (current_route hash (some u)) name u h in
    ground (
      arith,
      find_route-all (harmless u.role) routes name a.roles (harmless-limited u.role limited)
          a.listed,
      a.included,
    )

expired-schedule :
    (now : ℕ) (s : Session)
    → is_token_expired now (schedule_token_refresh now s) ≡ is_token_expired now s
unfolding is_token_expired schedule_token_refresh
expired-schedule now s = refl

-- Either `boot` renders views, and a user is stored, the token has not expired and the server
-- confirms the session; or it renders none, and nothing of the session is kept.
pub boot_lem :
    (now : ℕ) (reply : AuthStatus) (s : Session)
    → (((boot now reply s).1 ≡ true)
        × ((u : User) × (get_user s ≡ some u))
        × (is_token_expired now s ≡ false)
        × ((named : Option User) × (reply ≡ status true named)))
      ⊎ (((boot now reply s).1 ≡ false) × IsLoggedOut (boot now reply s).0)
unfolding boot
boot_lem now reply s = elim (Option-cases (get_user s)) [
  | inl e ↦ inr (ground arith, ground arith)
  | inr (u, e) ↦ elim (Bool-cases (is_token_expired now (schedule_token_refresh now s))) [
    | inl f ↦ inr (ground arith, ground arith)
    | inr f ↦ by_reply reply e f
  ]
]
  where
    by_reply :
        {u : User} (reply : AuthStatus)
        → get_user s ≡ some u
        → is_token_expired now (schedule_token_refresh now s) ≡ false
        → (((boot now reply s).1 ≡ true)
            × ((u : User) × (get_user s ≡ some u))
            × (is_token_expired now s ≡ false)
            × ((named : Option User) × (reply ≡ status true named)))
          ⊎ (((boot now reply s).1 ≡ false) × IsLoggedOut (boot now reply s).0)
    by_reply unreachable e f = inr (ground arith, ground arith)
    by_reply (status false named) e f = inr (ground arith, ground arith)
    by_reply {u} (status true named) e f =
        inl (ground arith, (u, e), sym (expired-schedule now s) ∙ f, (named, refl))
