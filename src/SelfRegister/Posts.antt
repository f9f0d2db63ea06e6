-- ===== src/SelfRegister/Posts.antt =====
-- What the page sends to the backend.
use ise_endpoint_portal.Prelude.{
  ℕ, ◌≡◌, refl, ap, ◌∙◌, inl, inr, Bool, true, false, not, ◌&&◌, List, [], ◌∷◌, ◌++◌, if◌then◌else◌,
  All, arith, Bool-cases,
}
use ise_endpoint_portal.Js.Text.{Text, codes, truthy, trim, includes_text}
use ise_endpoint_portal.Js.Text.Laws.{===_refl}
use ise_endpoint_portal.SelfRegister.{
  Fetched, threw, fetched, Lookup, lookup_session, Config, Registration, Registered, Screen, blank,
  disabled, config_failed, session_not_found, form, success, Page, initial, start_lookup, init,
  retry, Entered, registration_of, after_post, submit,
}

pub data Event : Type 0 where
  inits : Fetched Config → (reply : ℕ → Fetched Lookup) → Event
  retries : (reply : ℕ → Fetched Lookup) → Event
  submits : Entered → Fetched Registered → Event

-- The page with the addresses that the backend has found so far, and the names with which the guest has
-- accepted the terms.
pub record Watched : Type 0 where
  pub page : Page
  pub offered : List Text
  pub accepted : List Text

abbrev pub unwatched : Watched
unwatched = record { page = initial; offered = []; accepted = [] }

abbrev pub found_mac : (reply : ℕ → Fetched Lookup) → List Text → List Text
found_mac reply macs =
    let l = (lookup_session 5 reply).lookup in if l.found then l.mac ∷ macs else macs

abbrev pub accepted_name : Entered → List Text → List Text
accepted_name e names = if e.agrees then trim e.name ∷ names else names

unfoldable pub handle : Event → Watched → Watched
handle (inits cfg reply) w = record {
  page = init cfg reply w.page;
  offered = found_mac reply w.offered;
  accepted = w.accepted;
}
handle (retries reply) w = record {
  page = retry reply w.page;
  offered = found_mac reply w.offered;
  accepted = w.accepted;
}
handle (submits e o) w = record {
  page = submit e o w.page;
  offered = w.offered;
  accepted = accepted_name e w.accepted;
}

unfoldable pub handle_all : List Event → Watched → Watched
handle_all [] w = w
handle_all (e ∷ es) w = handle_all es (handle e w)

-- a found address, and a name that is not empty and came with the consent
abbrev pub is_allowed : List Text → List Text → Registration → Bool
is_allowed macs names r =
    includes_text macs r.mac
    && (includes_text names r.registrant_name && (truthy r.registrant_name && r.agreed))

-- the form is for a found address
abbrev is_offered : List Text → Screen → Bool
is_offered macs (form cfg mac terms message) = includes_text macs mac
is_offered macs _ = true

record IsAllowed (w : Watched) : Type 0 where
  offers : is_offered w.offered w.page.screen ≡ true
  allowed : All (λ r. is_allowed w.offered w.accepted r ≡ true) w.page.sent

includes_text-cons :
    (x y : Text) (xs : List Text) → includes_text xs y ≡ true → includes_text (x ∷ xs) y ≡ true
unfolding includes_text
includes_text-cons x y xs h = ground (arith, h)

includes_text-here : (x : Text) (xs : List Text) → includes_text (x ∷ xs) x ≡ true
unfolding includes_text
includes_text-here x xs = rw (===_refl x) refl

found_mac-keeps :
    (reply : ℕ → Fetched Lookup) (macs : List Text) (m : Text)
    → includes_text macs m ≡ true
    → includes_text (found_mac reply macs) m ≡ true
found_mac-keeps reply macs m h = elim (Bool-cases (lookup_session 5 reply).lookup.found) [
  | inl e ↦ rw e (includes_text-cons (lookup_session 5 reply).lookup.mac m macs h)
  | inr e ↦ rw e h
]

accepted_name-keeps :
    (e : Entered) (names : List Text) (n : Text)
    → includes_text names n ≡ true
    → includes_text (accepted_name e names) n ≡ true
accepted_name-keeps e names n h = elim (Bool-cases e.agrees) [
  | inl a ↦ rw a (includes_text-cons (trim e.name) n names h)
  | inr a ↦ rw a h
]

found-is_allowed :
    (reply : ℕ → Fetched Lookup) (macs names : List Text) (rs : List Registration)
    → All (λ r. is_allowed macs names r ≡ true) rs
    → All (λ r. is_allowed (found_mac reply macs) names r ≡ true) rs
found-is_allowed reply macs names [] h = tt
found-is_allowed reply macs names (r ∷ rs) (h, t) =
    (ground (arith, h, found_mac-keeps reply macs r.mac), found-is_allowed reply macs names rs t)

accepted-is_allowed :
    (e : Entered) (macs names : List Text) (rs : List Registration)
    → All (λ r. is_allowed macs names r ≡ true) rs
    → All (λ r. is_allowed macs (accepted_name e names) r ≡ true) rs
accepted-is_allowed e macs names [] h = tt
accepted-is_allowed e macs names (r ∷ rs) (h, t) = (
  ground (arith, h, accepted_name-keeps e names r.registrant_name),
  accepted-is_allowed e macs names rs t,
)

append-is_allowed :
    (macs names : List Text) (rs : List Registration) (r : Registration)
    → All (λ r. is_allowed macs names r ≡ true) rs
    → is_allowed macs names r ≡ true
    → All (λ r. is_allowed macs names r ≡ true) (rs ++ r ∷ [])
append-is_allowed macs names [] r h k = (k, tt)
append-is_allowed macs names (x ∷ rs) r (h, t) k = (h, append-is_allowed macs names rs r t k)

start_lookup-is_offered :
    (cfg : Config) (reply : ℕ → Fetched Lookup) (macs : List Text)
    → is_offered (found_mac reply macs) (start_lookup cfg reply) ≡ true
start_lookup-is_offered cfg reply macs = elim (Bool-cases (lookup_session 5 reply).lookup.found) [
  | inl e ↦ rw e (includes_text-here (lookup_session 5 reply).lookup.mac macs)
  | inr e ↦ rw e refl
]

keeps-is_offered :
    (reply : ℕ → Fetched Lookup) (macs : List Text) (s : Screen)
    → is_offered macs s ≡ true
    → is_offered (found_mac reply macs) s ≡ true
keeps-is_offered reply macs (form cfg mac terms message) h = found_mac-keeps reply macs mac h
keeps-is_offered reply macs blank h = refl
keeps-is_offered reply macs disabled h = refl
keeps-is_offered reply macs (config_failed m) h = refl
keeps-is_offered reply macs (session_not_found cfg ip) h = refl
keeps-is_offered reply macs (success mac url coa) h = refl

init-enabled :
    (cfg : Config) (reply : ℕ → Fetched Lookup) (page : Page) (b : Bool)
    → cfg.enabled ≡ b
    → init (fetched cfg) reply page ≡ (
        if not b
        then record page { screen = disabled }
        else record page { screen = start_lookup cfg reply })
unfolding init
init-enabled cfg reply page b e =
    ap
      (λ x.
        if not x
        then record page { screen = disabled }
        else record page { screen = start_lookup cfg reply })
      e

init-IsAllowed :
    (cfg : Fetched Config) (reply : ℕ → Fetched Lookup) (page : Page) (macs names : List Text)
    → IsAllowed (record { page = page; offered = macs; accepted = names })
    → IsAllowed
        (record { page = init cfg reply page; offered = found_mac reply macs; accepted = names })
unfolding init
init-IsAllowed (threw m) reply page macs names h = record {
  offers = refl;
  allowed = found-is_allowed reply macs names page.sent h.allowed;
}
init-IsAllowed (fetched cfg) reply page macs names h = elim (Bool-cases cfg.enabled) [
  | inl e ↦ rw (init-enabled cfg reply page true e) (record {
    offers = start_lookup-is_offered cfg reply macs;
    allowed = found-is_allowed reply macs names page.sent h.allowed;
  })
  | inr e ↦
      rw (init-enabled cfg reply page false e)
        (record { offers = refl; allowed = found-is_allowed reply macs names page.sent h.allowed })
]

retry-IsAllowed :
    (reply : ℕ → Fetched Lookup) (screen : Screen) (sent : List Registration)
    (macs names : List Text)
    → is_offered macs screen ≡ true
    → All (λ r. is_allowed macs names r ≡ true) sent
    → IsAllowed (record {
      page = retry reply (record { screen = screen; sent = sent });
      offered = found_mac reply macs;
      accepted = names;
    })
unfolding retry
retry-IsAllowed reply (session_not_found cfg ip) sent macs names o h = record {
  offers = start_lookup-is_offered cfg reply macs;
  allowed = found-is_allowed reply macs names sent h;
}
retry-IsAllowed reply (form cfg mac terms message) sent macs names o h = record {
  offers = found_mac-keeps reply macs mac o;
  allowed = found-is_allowed reply macs names sent h;
}
retry-IsAllowed reply blank sent macs names o h = record {
  offers = refl;
  allowed = found-is_allowed reply macs names sent h;
}
retry-IsAllowed reply disabled sent macs names o h = record {
  offers = refl;
  allowed = found-is_allowed reply macs names sent h;
}
retry-IsAllowed reply (config_failed m) sent macs names o h = record {
  offers = refl;
  allowed = found-is_allowed reply macs names sent h;
}
retry-IsAllowed reply (success mac url coa) sent macs names o h = record {
  offers = refl;
  allowed = found-is_allowed reply macs names sent h;
}

after_post-is_offered :
    (macs : List Text) (cfg : Config) (mac terms : Text) (o : Fetched Registered)
    → includes_text macs mac ≡ true
    → is_offered macs (after_post cfg mac terms o) ≡ true
after_post-is_offered macs cfg mac terms (threw m) h = h
after_post-is_offered macs cfg mac terms (fetched r) h = refl

registration-is_allowed :
    (macs names : List Text) (cfg : Config) (mac : Text) (e : Entered)
    → includes_text macs mac ≡ true
    → truthy (trim e.name) ≡ true
    → e.agrees ≡ true
    → is_allowed macs (accepted_name e names) (registration_of cfg mac e) ≡ true
registration-is_allowed macs names cfg mac e m n a =
    rw (a, m, n, includes_text-here (trim e.name) names) refl

-- the handler on the form, by the outcomes of its two checks
submit-checks :
    (e : Entered) (o : Fetched Registered) (cfg : Config) (mac terms message : Text)
    (sent : List Registration) (has_name agrees : Bool)
    → truthy (trim e.name) ≡ has_name
    → e.agrees ≡ agrees
    → submit e o (record { screen = form cfg mac terms message; sent = sent }) ≡ (
        if not has_name
        then record { screen = form cfg mac terms (codes "Indtast dit navn."); sent = sent }
        else if not agrees
        then record {
          screen = form cfg mac terms (codes "Du skal acceptere vilkårene.");
          sent = sent;
        }
        else record {
          screen = after_post cfg mac terms o;
          sent = sent ++ registration_of cfg mac e ∷ [];
        })
unfolding submit
submit-checks e o cfg mac terms message sent has_name agrees n a =
    ap
      (λ b.
        if not b
        then record { screen = form cfg mac terms (codes "Indtast dit navn."); sent = sent }
        else if not e.agrees
        then record {
          screen = form cfg mac terms (codes "Du skal acceptere vilkårene.");
          sent = sent;
        }
        else record {
          screen = after_post cfg mac terms o;
          sent = sent ++ registration_of cfg mac e ∷ [];
        })
      n
    ∙ ap
        (λ b.
          if not has_name
          then record { screen = form cfg mac terms (codes "Indtast dit navn."); sent = sent }
          else if not b
          then record {
            screen = form cfg mac terms (codes "Du skal acceptere vilkårene.");
            sent = sent;
          }
          else record {
            screen = after_post cfg mac terms o;
            sent = sent ++ registration_of cfg mac e ∷ [];
          })
        a

submit-IsAllowed :
    (e : Entered) (o : Fetched Registered) (screen : Screen) (sent : List Registration)
    (macs names : List Text)
    → is_offered macs screen ≡ true
    → All (λ r. is_allowed macs names r ≡ true) sent
    → IsAllowed (record {
      page = submit e o (record { screen = screen; sent = sent });
      offered = macs;
      accepted = accepted_name e names;
    })
unfolding submit
submit-IsAllowed e o (form cfg mac terms message) sent macs names f h =
    let kept = accepted-is_allowed e macs names sent h in
    elim (Bool-cases (truthy (trim e.name))) [
      | inr n ↦
          rw (submit-checks e o cfg mac terms message sent false e.agrees n refl)
            (record { offers = f; allowed = kept })
      | inl n ↦ elim (Bool-cases e.agrees) [
        | inr a ↦
            rw (submit-checks e o cfg mac terms message sent true false n a)
              (record { offers = f; allowed = kept })
        | inl a ↦ rw (submit-checks e o cfg mac terms message sent true true n a) (record {
          offers = after_post-is_offered macs cfg mac terms o f;
          allowed =
              append-is_allowed macs (accepted_name e names) sent (registration_of cfg mac e) kept
                (registration-is_allowed macs names cfg mac e f n a);
        })
      ]
    ]
submit-IsAllowed e o blank sent macs names f h = record {
  offers = refl;
  allowed = accepted-is_allowed e macs names sent h;
}
submit-IsAllowed e o disabled sent macs names f h = record {
  offers = refl;
  allowed = accepted-is_allowed e macs names sent h;
}
submit-IsAllowed e o (config_failed m) sent macs names f h = record {
  offers = refl;
  allowed = accepted-is_allowed e macs names sent h;
}
submit-IsAllowed e o (session_not_found cfg ip) sent macs names f h = record {
  offers = refl;
  allowed = accepted-is_allowed e macs names sent h;
}
submit-IsAllowed e o (success mac url coa) sent macs names f h = record {
  offers = refl;
  allowed = accepted-is_allowed e macs names sent h;
}

handle-IsAllowed : (e : Event) (w : Watched) → IsAllowed w → IsAllowed (handle e w)
unfolding handle
handle-IsAllowed (inits cfg reply) w h = init-IsAllowed cfg reply w.page w.offered w.accepted h
handle-IsAllowed (retries reply) w h =
    retry-IsAllowed reply w.page.screen w.page.sent w.offered w.accepted h.offers h.allowed
handle-IsAllowed (submits e o) w h =
    submit-IsAllowed e o w.page.screen w.page.sent w.offered w.accepted h.offers h.allowed

handle_all-IsAllowed : (es : List Event) (w : Watched) → IsAllowed w → IsAllowed (handle_all es w)
unfolding handle_all
handle_all-IsAllowed [] w h = h
handle_all-IsAllowed (e ∷ es) w h = handle_all-IsAllowed es (handle e w) (handle-IsAllowed e w h)

-- Whatever the guest and the backend do, each registration that the page sends is for an address that
-- the backend has found for the guest, and with a name that is not empty and with which the guest has
-- accepted the terms.
pub sent-is_allowed :
    (es : List Event)
    → All
        (λ r.
          is_allowed (handle_all es unwatched).offered (handle_all es unwatched).accepted r ≡ true)
        (handle_all es unwatched).page.sent
sent-is_allowed es =
    (handle_all-IsAllowed es unwatched (record { offers = refl; allowed = tt })).allowed
