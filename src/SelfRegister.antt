-- ===== src/SelfRegister.antt =====
-- frontend/js/selfregister.js: the page on which a guest registers a device. The address of the device is
-- looked up by polling; the guest gives a name and accepts the terms.
pub mod Polling
pub mod Posts
mod Tests
use ise_endpoint_portal.Prelude.{
  ℕ, zero, suc, ◌+◌, Bool, true, false, not, ◌&&◌, List, [], ◌∷◌, ◌++◌, Option, none, some,
  if◌then◌else◌,
}
use ise_endpoint_portal.Js.Text.{Text, codes, truthy, trim}

-- what `apiGet` and `apiPost` bring: the message of an error, or the data
pub data Fetched (A : Type 0) : Type 0 where
  threw : Text → Fetched A
  fetched : A → Fetched A

abbrev pub text_or : Text → Text → Text
text_or d s = if truthy s then s else d

-- the message of the error for a reply that is no success: `detail` is the text of a truthy `.detail` of
-- its JSON
unfoldable pub error_message : Option Text → Text → Text
error_message none status_text = status_text
error_message (some d) status_text = d

-- `apiGet`: a reply is its status, `.detail`, status text and data; `none` is a body that is no JSON
unfoldable pub api_get : {A : Type 0} → Bool → Option Text → Text → Text → Option A → Fetched A
unfolding error_message
api_get ok detail status_text unreadable json =
    if not ok
    then threw (error_message detail status_text)
    else elim json [ none ↦ threw unreadable | some d ↦ fetched d ]

-- `apiPost`: a body that is no JSON counts as `{}`, here `empty`
unfoldable pub api_post : {A : Type 0} → Bool → Option Text → Text → A → Option A → Fetched A
unfolding error_message
api_post ok detail status_text empty json =
    if not ok
    then threw (error_message detail status_text)
    else elim json [ none ↦ fetched empty | some d ↦ fetched d ]

-- the fields that are read of a reply to `/selfregister/session`; missing texts are empty
pub record Lookup : Type 0 where
  pub found : Bool
  pub mac : Text
  pub client_ip : Text

-- how `lookupSession` ends, after how many polls and pauses
pub record Searched : Type 0 where
  pub lookup : Lookup
  pub polls : ℕ
  pub pauses : ℕ

abbrev pub not_found : Lookup
not_found = record { found = false; mac = []; client_ip = [] }

abbrev pub one_more_try : Searched → Searched
one_more_try r = record r { polls = suc r.polls; pauses = suc r.pauses }

-- the end of a search with its last poll
abbrev pub ends_with : Lookup → Searched
ends_with l = record { lookup = l; polls = 1; pauses = 0 }

-- The loop of `lookupSession` with the attempts that are left, the next of them first; `reply n` is
-- what the n-th attempt brings.
unfoldable pub attempts : ℕ → (reply : ℕ → Fetched Lookup) → ℕ → Searched
attempts zero reply n = record { lookup = not_found; polls = 0; pauses = 0 }
attempts (suc zero) reply n = elim (reply n) [
  | threw m ↦ ends_with not_found
  | fetched l ↦ ends_with l
]
attempts (suc (suc left)) reply n =
    let later = one_more_try (attempts (suc left) reply (suc n)) in
    elim (reply n) [ threw m ↦ later | fetched l ↦ if l.found then ends_with l else later ]

-- `lookupSession(maxAttempts)`
unfoldable pub lookup_session : ℕ → (reply : ℕ → Fetched Lookup) → Searched
unfolding attempts
lookup_session max_attempts reply = attempts max_attempts reply 1

-- what is read of `/selfregister/config`
pub record Config : Type 0 where
  pub enabled : Bool
  pub terms : Text
  pub ipsk_enabled : Bool
  pub intro_text : Text
  pub success_text : Text

-- the body of the registration
pub record Registration : Type 0 where
  pub mac : Text
  pub registrant_name : Text
  pub agreed : Bool
  pub psk_key : Option Text

-- what is read of the reply to it
pub record Registered : Type 0 where
  pub redirect_url : Text
  pub coa_sent : Bool

-- what the page shows; the form with its message
pub data Screen : Type 0 where
  blank disabled : Screen
  config_failed : Text → Screen
  session_not_found : Config → (client_ip : Text) → Screen
  form : Config → (mac terms message : Text) → Screen
  success : (mac redirect_url : Text) → (coa_sent : Bool) → Screen

-- the page, and the registrations that it has sent
pub record Page : Type 0 where
  pub screen : Screen
  pub sent : List Registration

abbrev pub initial : Page
initial = record { screen = blank; sent = [] }

-- `startLookup`
abbrev pub start_lookup : Config → (reply : ℕ → Fetched Lookup) → Screen
start_lookup cfg reply =
    let l = (lookup_session 5 reply).lookup in
    if l.found
    then form cfg l.mac (text_or (codes "Jeg accepterer betingelserne.") cfg.terms) []
    else session_not_found cfg (text_or (codes "?") l.client_ip)

-- `init`
unfoldable pub init : Fetched Config → (reply : ℕ → Fetched Lookup) → Page → Page
unfolding lookup_session
init (threw m) reply page = record page {
  screen = config_failed (codes "Kunne ikke hente konfiguration: " ++ m);
}
init (fetched cfg) reply page =
    if not cfg.enabled
    then record page { screen = disabled }
    else record page { screen = start_lookup cfg reply }

-- the button of `renderSessionNotFound`
unfoldable pub retry : (reply : ℕ → Fetched Lookup) → Page → Page
unfolding lookup_session
retry reply page = elim page.screen [
  | session_not_found cfg ip ↦ record page { screen = start_lookup cfg reply }
  | _ ↦ page
]

-- what the guest has entered; the key's field is there only if keys are enabled
pub record Entered : Type 0 where
  pub name : Text
  pub agrees : Bool
  pub psk : Text

abbrev pub psk_of : Config → Text → Option Text
psk_of cfg psk = if cfg.ipsk_enabled && truthy (trim psk) then some (trim psk) else none

abbrev pub registration_of : Config → Text → Entered → Registration
registration_of cfg mac e = record {
  mac = mac;
  registrant_name = trim e.name;
  agreed = true;
  psk_key = psk_of cfg e.psk;
}

abbrev pub after_post : Config → (mac terms : Text) → Fetched Registered → Screen
after_post cfg mac terms (threw m) = form cfg mac terms m
after_post cfg mac terms (fetched r) = success mac r.redirect_url r.coa_sent

-- the submit handler of the form, with what `apiPost` brings
unfoldable pub submit : Entered → Fetched Registered → Page → Page
unfolding trim
submit e o page = elim page.screen [
  | form cfg mac terms message ↦
      if not (truthy (trim e.name))
      then record page { screen = form cfg mac terms (codes "Indtast dit navn.") }
      else if not e.agrees
      then record page { screen = form cfg mac terms (codes "Du skal acceptere vilkårene.") }
      else record {
        screen = after_post cfg mac terms o;
        sent = page.sent ++ registration_of cfg mac e ∷ [];
      }
  | _ ↦ page
]
