-- ===== src/ServiceWorker/Offline.antt =====
-- The shell starts without the network.
use ise_endpoint_portal.Prelude.{
  ◌≡◌, refl, sym, ap, ◌∙◌, inl, inr, Bool, true, false, ◌&&◌, ◌||◌, List, [], ◌∷◌, ◌++◌, Option,
  none, some, if◌then◌else◌, arith, Bool-cases, Option-cases, drop,
}
use ise_endpoint_portal.Js.Dict.{Dict, lookup, put, lookup-put}
use ise_endpoint_portal.Js.Text.{Text, codes, ◌===◌, starts_with}
use ise_endpoint_portal.Js.Text.Laws.{===_refl}
use ise_endpoint_portal.ServiceWorker.{
  shell_cache, Request, Response, Caches, opened, put_in_shell, put_all, fetch_all, open_shell,
  add_all, addresses, install, activate, match_in, Answer, past_worker, responds, or_index,
  fetch_event,
}

abbrev pub is_some : {A : Type 0} → Option A → Bool
is_some none = false
is_some (some a) = true

-- whether the shell's cache has an address
abbrev pub is_in_shell : {B : Type 0} → Text → Caches B → Bool
is_in_shell url cs = is_some (lookup url (opened (lookup shell_cache cs)))

lookup-put_same : {V : Type 0} (k : Text) (v : V) (m : Dict V) → lookup k (put k v m) ≡ some v
lookup-put_same k v m = lookup-put k k v m ∙ ap (λ b. if b then some v else lookup k m) (===_refl k)

module _ {B : Type 0} where
  is_in_shell-put :
      (url key : Text) (r : Response B) (cs : Caches B)
      → is_in_shell url (put_in_shell key r cs) ≡ (is_in_shell url cs || key === url)
  unfolding put_in_shell
  is_in_shell-put url key r cs =
      let c = opened (lookup shell_cache cs) in
      ap (λ o. is_some (lookup url (opened o))) (lookup-put_same shell_cache (put key r c) cs)
      ∙ ap is_some (lookup-put key url r c)
      ∙ (ground arith)

  -- what is in the shell's cache stays there
  is_in_shell-keeps :
      (url key : Text) (r : Response B) (cs : Caches B)
      → is_in_shell url cs ≡ true
      → is_in_shell url (put_in_shell key r cs) ≡ true
  is_in_shell-keeps url key r cs h = is_in_shell-put url key r cs ∙ (ground (arith, h))

  put_all-keeps :
      (url : Text) (rs : List (Text × Response B)) (cs : Caches B)
      → is_in_shell url cs ≡ true
      → is_in_shell url (put_all rs cs) ≡ true
  put_all-keeps url [] cs h = h
  put_all-keeps url ((key, r) ∷ rs) cs h =
      put_all-keeps url rs (put_in_shell key r cs) (is_in_shell-keeps url key r cs h)

  lookup_shell-activate : (cs : Caches B) → lookup shell_cache (activate cs) ≡ lookup shell_cache cs
  unfolding activate lookup
  lookup_shell-activate [] = refl
  lookup_shell-activate ((name, c) ∷ cs) = elim (Bool-cases (name === shell_cache)) [
    | inl e ↦ rw (e, e) refl
    | inr e ↦ rw (e) (lookup_shell-activate cs)
  ]

  is_in_shell-activate :
      (url : Text) (cs : Caches B) → is_in_shell url (activate cs) ≡ is_in_shell url cs
  is_in_shell-activate url cs = ap (λ o. is_some (lookup url (opened o))) (lookup_shell-activate cs)

  match_in-cons :
      (url name : Text) (c : Dict (Response B)) (cs : Caches B) (o : Option (Response B))
      → lookup url c ≡ o
      → match_in url ((name, c) ∷ cs) ≡ elim o [ none ↦ match_in url cs | some r ↦ some r ]
  unfolding match_in
  match_in-cons url name c cs o e = ap (λ x. elim x [ none ↦ match_in url cs | some r ↦ some r ]) e

  elsewhere :
      (url name : Text) (c : Dict (Response B)) (cs : Caches B)
      → lookup url c ≡ none
      → is_in_shell url ((name, c) ∷ cs) ≡ true
      → is_in_shell url cs ≡ true
  unfolding lookup
  elsewhere url name c cs e h = elim (Bool-cases (name === shell_cache)) [
    | inl f ↦ absurd (
        cc (
          sym (ap is_some e)
          ∙ ap (λ b. is_some (lookup url (opened (if b then some c else lookup shell_cache cs))))
              (sym f)
          ∙ h))
    | inr f ↦
        ap (λ b. is_some (lookup url (opened (if b then some c else lookup shell_cache cs))))
          (sym f)
        ∙ h
  ]

  match_in-is_in_shell :
      (url : Text) (cs : Caches B) → is_in_shell url cs ≡ true → is_some (match_in url cs) ≡ true
  unfolding lookup
  match_in-is_in_shell url [] h = absurd (cc h)
  match_in-is_in_shell url ((name, c) ∷ cs) h = elim (Option-cases (lookup url c)) [
    | inr (r, e) ↦ ap is_some (match_in-cons url name c cs (some r) e)
    | inl e ↦
        ap is_some (match_in-cons url name c cs none e)
        ∙ match_in-is_in_shell url cs (elsewhere url name c cs e h)
  ]

  -- an answer with a response
  abbrev pub is_served : Answer B → Bool
  is_served past_worker = false
  is_served (responds r) = is_some r

  or_index-served :
      (origin : Text) (cs : Caches B) (r : Option (Response B))
      → is_in_shell (origin ++ codes "/index.html") cs ≡ true
      → is_some (or_index origin cs r) ≡ true
  or_index-served origin cs none h = match_in-is_in_shell (origin ++ codes "/index.html") cs h
  or_index-served origin cs (some r) h = refl

  fetch_event-offline :
      (origin : Text) (req : Request) (cs : Caches B)
      → starts_with req.pathname (codes "/api/") ≡ false
      → (req.method === codes "GET") ≡ true
      → is_in_shell (origin ++ codes "/index.html") cs ≡ true
      → is_served (fetch_event origin req none cs).0 ≡ true
  unfolding fetch_event
  fetch_event-offline origin req cs a g h =
      rw (a, g) (or_index-served origin cs (match_in req.url cs) h)

  is_in_shell-open :
      (url : Text) (cs : Caches B) → is_in_shell url (open_shell cs) ≡ is_in_shell url cs
  is_in_shell-open url cs =
      ap (λ o. is_some (lookup url (opened o)))
        (lookup-put_same shell_cache (opened (lookup shell_cache cs)) cs)

  add_all-keeps :
      (url : Text) (rs : Option (List (Text × Response B))) (cs : Caches B)
      → is_in_shell url cs ≡ true
      → is_in_shell url (add_all rs cs) ≡ true
  add_all-keeps url none cs h = is_in_shell-open url cs ∙ h
  add_all-keeps url (some rs) cs h =
      put_all-keeps url rs (open_shell cs) (is_in_shell-open url cs ∙ h)

  fetch_event-keeps :
      (origin url : Text) (req : Request) (network : Option (Response B)) (cs : Caches B)
      → is_in_shell url cs ≡ true
      → is_in_shell url (fetch_event origin req network cs).1 ≡ true
  unfolding fetch_event
  fetch_event-keeps origin url req none cs h =
      elim (Bool-cases (starts_with req.pathname (codes "/api/"))) [
        | inl a ↦ rw a h
        | inr a ↦ elim (Bool-cases (req.method === codes "GET")) [
          | inl g ↦ rw (a, g) h
          | inr g ↦ rw (a, g) h
        ]
      ]
  fetch_event-keeps origin url req (some res) cs h =
      elim (Bool-cases (starts_with req.pathname (codes "/api/"))) [
        | inl a ↦ rw a h
        | inr a ↦ elim (Bool-cases (req.method === codes "GET")) [
          | inr g ↦ rw (a, g) h
          | inl g ↦ elim (Bool-cases (res.ok && req.same_origin)) [
            | inl k ↦ rw (a, g, k) (is_in_shell-keeps url req.url res cs h)
            | inr k ↦ rw (a, g, k) h
          ]
        ]
      ]

  fetch_all-cons :
      (network : Text → Option (Response B)) (url : Text) (urls : List Text)
      (rs : List (Text × Response B))
      → fetch_all network (url ∷ urls) ≡ some rs
      → (res : Response B) × (rest : List (Text × Response B)) × (rs ≡ (url, res) ∷ rest)
  fetch_all-cons network url urls rs h = go (network url) (fetch_all network urls) h
    where
      go :
          (o : Option (Response B)) (more : Option (List (Text × Response B)))
          → (elim o [
            | none ↦ none
            | some res ↦ elim more [
              | none ↦ none
              | some rest ↦ if res.ok then some ((url, res) ∷ rest) else none
            ]
          ])
            ≡ some rs
          → (res : Response B) × (rest : List (Text × Response B)) × (rs ≡ (url, res) ∷ rest)
      go none more e = absurd (cc e)
      go (some res) none e = absurd (cc e)
      go (some res) (some rest) e = elim (Bool-cases res.ok) [
        | inl k ↦
            (res, rest, cc (ap (λ b. if b then some ((url, res) ∷ rest) else none) (sym k) ∙ e))
        | inr k ↦ absurd (cc (ap (λ b. if b then some ((url, res) ∷ rest) else none) (sym k) ∙ e))
      ]

  -- after an installation that fetched every file
  install-is_in_shell :
      (origin : Text) (network : Text → Option (Response B)) (cs : Caches B)
      (rs : List (Text × Response B))
      → fetch_all network (addresses origin) ≡ some rs
      → is_in_shell (origin ++ codes "/index.html") (install origin network cs) ≡ true
  unfolding install
  install-is_in_shell origin network cs rs h =
      let index = origin ++ codes "/index.html" in
      let (res, rest, e) = fetch_all-cons network index (drop 1 (addresses origin)) rs h in
      ap (λ x. is_in_shell index (add_all x cs)) (h ∙ ap some e)
      ∙ put_all-keeps index rest (put_in_shell index res (open_shell cs))
          (is_in_shell-put index index res (open_shell cs) ∙ (ground (arith, ===_refl index)))

-- what happens to the worker: other installations, activations, requests with what `fetch` brings
pub data Event (B : Type 0) : Type 0 where
  installs : (Text → Option (Response B)) → Event B
  activates : Event B
  fetches : Request → Option (Response B) → Event B

unfoldable pub handle : {B : Type 0} → Text → Event B → Caches B → Caches B
handle origin (installs network) cs = install origin network cs
handle origin activates cs = activate cs
handle origin (fetches req network) cs = (fetch_event origin req network cs).1

unfoldable pub handle_all : {B : Type 0} → Text → List (Event B) → Caches B → Caches B
unfolding handle
handle_all origin [] cs = cs
handle_all origin (e ∷ es) cs = handle_all origin es (handle origin e cs)

module _ {B : Type 0} where
  handle-keeps :
      (origin url : Text) (e : Event B) (cs : Caches B)
      → is_in_shell url cs ≡ true
      → is_in_shell url (handle origin e cs) ≡ true
  unfolding handle
  handle-keeps origin url (installs network) cs h =
      unfold install in add_all-keeps url (fetch_all network (addresses origin)) cs h
  handle-keeps origin url activates cs h = is_in_shell-activate url cs ∙ h
  handle-keeps origin url (fetches req network) cs h = fetch_event-keeps origin url req network cs h

  handle_all-keeps :
      (origin url : Text) (es : List (Event B)) (cs : Caches B)
      → is_in_shell url cs ≡ true
      → is_in_shell url (handle_all origin es cs) ≡ true
  unfolding handle_all
  handle_all-keeps origin url [] cs h = h
  handle_all-keeps origin url (e ∷ es) cs h =
      handle_all-keeps origin url es (handle origin e cs) (handle-keeps origin url e cs h)

  -- After an installation that could fetch every file of the shell, and whatever installations,
  -- activations and requests come behind it, the worker brings a response to any GET request that is
  -- not for the API, also when the network fails.
  pub fetch_event-served :
      (origin : Text) (network : Text → Option (Response B)) (cs : Caches B)
      (rs : List (Text × Response B)) (es : List (Event B)) (req : Request)
      → fetch_all network (addresses origin) ≡ some rs
      → starts_with req.pathname (codes "/api/") ≡ false
      → (req.method === codes "GET") ≡ true
      → is_served (fetch_event origin req none (handle_all origin es (install origin network cs))).0
        ≡ true
  fetch_event-served origin network cs rs es req h a g =
      fetch_event-offline origin req (handle_all origin es (install origin network cs)) a g (
        handle_all-keeps origin (origin ++ codes "/index.html") es (install origin network cs)
          (install-is_in_shell origin network cs rs h))
