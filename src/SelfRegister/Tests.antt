-- ===== src/SelfRegister/Tests.antt =====
-- A concrete registration.
use ise_endpoint_portal.Prelude.{ℕ, zero, suc, ◌≡◌, ◌⊎◌, true, false, List, [], ◌∷◌, All}
use ise_endpoint_portal.Js.Text.{codes}
use ise_endpoint_portal.SelfRegister.{
  Fetched, threw, fetched, Lookup, not_found, lookup_session, Config,
}
use ise_endpoint_portal.SelfRegister.Polling.{IsFirst, IsExhausted, lookup_session-Ends}
use ise_endpoint_portal.SelfRegister.Posts.{
  Event, inits, submits, handle_all, unwatched, is_allowed, sent-is_allowed,
}

-- the second attempt finds the device
abbrev second : ℕ → Fetched Lookup
second zero = threw (codes "x")
second (suc zero) = fetched not_found
second (suc (suc n)) =
    fetched (record { found = true; mac = codes "AA:BB:CC:DD:EE:FF"; client_ip = codes "10.0.0.1" })

abbrev open_config : Config
open_config = record {
  enabled = true;
  terms = [];
  ipsk_enabled = false;
  intro_text = [];
  success_text = [];
}

abbrev visit : List Event
visit =
    inits (fetched open_config) second
    ∷ submits (record { name = codes " Ib "; agrees = true; psk = [] })
        (fetched (record { redirect_url = []; coa_sent = true }))
    ∷ []

lookup_session-Ends_example :
    IsFirst second 1 5 (lookup_session 5 second) ⊎ IsExhausted second 1 5 (lookup_session 5 second)
lookup_session-Ends_example = lookup_session-Ends 4 second

sent-is_allowed_example :
    All
      (λ r.
        is_allowed (handle_all visit unwatched).offered (handle_all visit unwatched).accepted r
        ≡ true)
      (handle_all visit unwatched).page.sent
sent-is_allowed_example = sent-is_allowed visit
