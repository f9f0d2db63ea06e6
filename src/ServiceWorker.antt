-- ===== src/ServiceWorker.antt =====
-- frontend/service-worker.js: the cache of the application's shell.
pub mod Offline
mod Tests
use ise_endpoint_portal.Prelude.{
  ℕ, Bool, true, false, not, ◌&&◌, List, [], ◌∷◌, ◌++◌, Option, none, some, if◌then◌else◌, map,
}
use ise_endpoint_portal.Js.Dict.{Dict, lookup, put}
use ise_endpoint_portal.Js.Text.{Text, codes, ◌===◌, starts_with}

-- `SHELL_CACHE`
abbrev pub shell_cache : Text
shell_cache = codes "ise-portal-shell-v1"

-- `SHELL`
abbrev pub shell : List Text
shell =
    codes "/index.html"
    ∷ codes "/css/styles.css"
    ∷ codes "/js/app.js"
    ∷ codes "/js/api.js"
    ∷ codes "/js/auth.js"
    ∷ codes "/js/csv.js"
    ∷ codes "/js/offline_queue.js"
    ∷ codes "/js/views/register.js"
    ∷ codes "/js/views/login.js"
    ∷ codes "/js/views/settings.js"
    ∷ codes "/manifest.json"
    ∷ codes "/icons/icon-192.svg"
    ∷ codes "/icons/icon-512.svg"
    ∷ []

-- what is read of a request
pub record Request : Type 0 where
  pub url : Text
  pub pathname : Text
  pub method : Text
  pub same_origin : Bool

-- B is the type of what a response holds.
pub record Response (B : Type 0) : Type 0 where
  pub ok : Bool
  pub content : B

-- the caches of the origin by name, each with its responses by address
abbrev pub Caches : Type 0 → Type 0
Caches B = Dict (Dict (Response B))

abbrev pub opened : {B : Type 0} → Option (Dict (Response B)) → Dict (Response B)
opened none = []
opened (some c) = c

-- `cache.put` in the shell's cache, which is opened first
unfoldable pub put_in_shell : {B : Type 0} → Text → Response B → Caches B → Caches B
unfolding lookup put
put_in_shell url res cs = put shell_cache (put url res (opened (lookup shell_cache cs))) cs

abbrev pub put_all : {B : Type 0} → List (Text × Response B) → Caches B → Caches B
put_all [] cs = cs
put_all ((url, res) ∷ rest) cs = put_all rest (put_in_shell url res cs)

-- The responses of all addresses, if each of them is a success.
abbrev pub fetch_all :
    {B : Type 0} → (Text → Option (Response B)) → List Text → Option (List (Text × Response B))
fetch_all network [] = some []
fetch_all network (url ∷ urls) = elim (network url) [
  | none ↦ none
  | some res ↦ elim (fetch_all network urls) [
    | none ↦ none
    | some rest ↦ if res.ok then some ((url, res) ∷ rest) else none
  ]
]

-- `caches.open(SHELL_CACHE)`
abbrev pub open_shell : {B : Type 0} → Caches B → Caches B
open_shell cs = put shell_cache (opened (lookup shell_cache cs)) cs

-- `cache.addAll(SHELL)` stores all or nothing; its failure is caught.
abbrev pub add_all : {B : Type 0} → Option (List (Text × Response B)) → Caches B → Caches B
add_all none cs = open_shell cs
add_all (some rs) cs = put_all rs (open_shell cs)

abbrev pub addresses : Text → List Text
addresses origin = map (λ p. origin ++ p) shell

-- the install handler; `network` is what fetching an address brings, and `origin` the worker's
unfoldable pub install : {B : Type 0} → Text → (Text → Option (Response B)) → Caches B → Caches B
unfolding put_in_shell
install origin network cs = add_all (fetch_all network (addresses origin)) cs

-- the activate handler: the other caches are deleted
unfoldable pub activate : {B : Type 0} → Caches B → Caches B
unfolding ◌===◌
activate [] = []
activate ((name, c) ∷ cs) =
    let rest = activate cs in if name === shell_cache then (name, c) ∷ rest else rest

-- `caches.match(url)`: the first cache that has it
unfoldable pub match_in : {B : Type 0} → Text → Caches B → Option (Response B)
unfolding lookup
match_in url [] = none
match_in url ((name, c) ∷ cs) =
    let rest = match_in url cs in elim (lookup url c) [ none ↦ rest | some r ↦ some r ]

-- what the browser does with a request: it goes past the worker, or gets what the worker brings
pub data Answer (B : Type 0) : Type 0 where
  past_worker : Answer B
  responds : Option (Response B) → Answer B

-- `(c) => c || caches.match("/index.html")`
abbrev pub or_index : {B : Type 0} → Text → Caches B → Option (Response B) → Option (Response B)
or_index origin cs none = match_in (origin ++ codes "/index.html") cs
or_index origin cs (some c) = some c

-- the fetch handler, with what `fetch` brings (`none`: it is rejected), the answer and the caches
unfoldable pub fetch_event :
    {B : Type 0} → Text → Request → Option (Response B) → Caches B → Answer B × Caches B
unfolding starts_with ◌===◌ match_in put_in_shell
fetch_event origin req network cs =
    if starts_with req.pathname (codes "/api/")
    then (past_worker, cs)
    else if not (req.method === codes "GET")
    then (past_worker, cs)
    else elim network [
      | none ↦ (responds (or_index origin cs (match_in req.url cs)), cs)
      | some res ↦ (
        responds (some res),
        if res.ok && req.same_origin then put_in_shell req.url res cs else cs,
      )
    ]
