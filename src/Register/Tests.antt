-- ===== src/Register/Tests.antt =====
-- A concrete form of an editor.
use ise_endpoint_portal.Prelude.{
  ℕ, ◌≡◌, ◌⊎◌, refl, true, false, List, [], ◌∷◌, none, some, All, length, ◌==◌,
}
use ise_endpoint_portal.Js.Text.{codes, ◌===◌, trim, to_upper_case, join, Text}
use ise_endpoint_portal.Csv.Mac.{is_hex, mac_pairs, mac_re}
use ise_endpoint_portal.ImportPage.Sent.{is_canonical_mac}
use ise_endpoint_portal.OfflineQueue.{
  absent, load, is_network, has_status, Thrown, message, Outcome, thrown, resolved, Turn, flush_all,
}
use ise_endpoint_portal.OfflineQueue.Safety.{has_id}
use ise_endpoint_portal.Register.Mac.{
  hex_digits, pairs, with_colons, normalise_mac, submitted_mac, mac_of_code, picture, scan, extract,
  extract_at, mac_of_codes,
}
use ise_endpoint_portal.Register.Mac.Accepted.{mac_re-submitted_mac}
use ise_endpoint_portal.Register.Context.{Context}
use ise_endpoint_portal.Register.Form.{Payload, types_mac, types_description, payload_of}
use ise_endpoint_portal.Register.Page.{
  Page, initial, Event, edits, submits, answers, flush_removes, refused, is_unauthorized, submit,
  answered, handle, handle_all,
}
use ise_endpoint_portal.Register.Page.Fit.{IsSound, handle_all-IsSound}
use ise_endpoint_portal.Register.Page.Held.{SparesItem, Holds, IsRefused, IsGone}
use ise_endpoint_portal.Register.Page.Kept.{
  handle_all-Holds_or_IsRefused, flush_all-when_answered, IsSendable, when_called, when_answered,
}

abbrev typed : Text
typed = codes "aa-bb-cc dd.ee.ff"

submitted_mac-typed : submitted_mac typed ≡ codes "AA:BB:CC:DD:EE:FF"
unfolding submitted_mac normalise_mac hex_digits with_colons pairs join trim to_upper_case
submitted_mac-typed = refl

scanned :
    scan (picture none ∷ picture (some (codes "x" ∷ codes "MAC 001122aabbcc" ∷ [])) ∷ [])
    ≡ codes "00:11:22:AA:BB:CC" ∷ []
unfolding scan mac_of_codes mac_of_code extract extract_at hex_digits with_colons pairs join
    to_upper_case
scanned = refl

mac_re-submitted_mac_example :
    (mac_re (submitted_mac typed) ≡ (length (hex_digits typed) == 12))
    × ((mac_re (submitted_mac typed) ≡ false) ⊎ (is_canonical_mac (submitted_mac typed) ≡ true))
mac_re-submitted_mac_example = mac_re-submitted_mac typed

abbrev editor : Context
editor = record {
  is_registrant = false;
  me = some (record {
    username = codes "ann";
    role = codes "editor";
    assigned_endpoint_roles = codes "ann" ∷ [];
  });
  catalog = record { name = codes "Ann"; description = [] } ∷ [];
  group_ids = codes "g1" ∷ [];
  attr_values = (codes "Type", codes "lab" ∷ []) ∷ [];
}

-- a registration while there is no connection
abbrev offline : Outcome
offline = thrown (message (codes "Failed to fetch"))

abbrev one_registration : List Event
one_registration =
    edits (types_mac typed) ∷ submits ∷ answers (codes "1") (codes "now") offline ∷ []

handle_all-IsSound_example :
    IsSound editor (handle_all editor one_registration (initial editor [] absent))
handle_all-IsSound_example = handle_all-IsSound editor one_registration [] absent tt

abbrev filled : Page
filled = record {
  templates = [];
  form = record {
    template = [];
    mac = typed;
    group = codes "g1";
    attrs = (codes "Type", codes "lab") ∷ [];
    picked = true ∷ [];
    psk_mode = false;
    psk_key = [];
    description = [];
  };
  message = refused (message (codes "409: exists"));
  waiting = none;
  disabled = false;
  left = false;
  queue = absent;
  banner = 0;
  created = [];
}

filled-accepted : mac_re (submitted_mac filled.form.mac) ≡ true
unfolding mac_re mac_pairs is_hex submitted_mac normalise_mac hex_digits with_colons pairs join trim
    to_upper_case
filled-accepted = refl

network : is_network (message (codes "Failed to fetch")) ≡ true
unfolding is_network has_status
network = refl

abbrev after_it : List Event
after_it = flush_removes (codes "2") ∷ submits ∷ []

spared : All (SparesItem (codes "1")) after_it
unfolding ◌===◌
spared = (refl, (tt, tt))

abbrev meanwhile : List Event
meanwhile = submits ∷ edits (types_description (codes "printer")) ∷ []

filled-IsSendable : IsSendable editor filled
filled-IsSendable = (refl, filled-accepted, refl)

handle_all-Holds_or_IsRefused_example :
    Holds
      (record {
        id = codes "1";
        payload = payload_of editor filled.form;
        enqueued_at = codes "now";
      })
      (handle_all editor after_it
        (when_answered editor (codes "1") (codes "now") offline meanwhile filled))
    ⊎ ((e : Thrown) × (offline ≡ thrown e)
        × (is_network e ≡ false)
        × (IsRefused e
              (when_called editor meanwhile filled)
              (when_answered editor (codes "1") (codes "now") offline meanwhile filled)
            ⊎ IsGone e
                (when_called editor meanwhile filled)
                (when_answered editor (codes "1") (codes "now") offline meanwhile filled)))
handle_all-Holds_or_IsRefused_example =
    handle_all-Holds_or_IsRefused editor (codes "1") (codes "now") offline meanwhile after_it filled
      filled-IsSendable (tt, (tt, tt)) spared

-- After the end of the session the registration is neither on the page nor in the queue.
abbrev logged_out : Outcome
logged_out = thrown (message (codes "401: ikke logget ind"))

logged_out-loses :
    ((when_answered editor (codes "1") (codes "now") logged_out [] filled).left ≡ true)
    × (load (when_answered editor (codes "1") (codes "now") logged_out [] filled).queue ≡ [])
    × ((when_answered editor (codes "1") (codes "now") logged_out [] filled).created ≡ [])
unfolding handle_all handle submit answered is_network has_status is_unauthorized ◌===◌ mac_re
    mac_pairs is_hex submitted_mac normalise_mac hex_digits with_colons pairs join trim
    to_upper_case payload_of
logged_out-loses = (refl, refl, refl)

abbrev all_created : ℕ → Turn Payload
all_created n = record { meanwhile = []; outcome = resolved }

flush_all-when_answered_example :
    (has_id (codes "1") (
        load
          (flush_all all_created
            (when_answered editor (codes "1") (codes "now") offline meanwhile filled).queue).stored)
      ≡ true)
    ⊎ (has_id
          (codes "1")
          (flush_all all_created
            (when_answered editor (codes "1") (codes "now") offline meanwhile filled).queue).called
        ≡ true)
flush_all-when_answered_example =
    flush_all-when_answered editor (codes "1") (codes "now") (message (codes "Failed to fetch"))
      meanwhile filled all_created filled-IsSendable (tt, (tt, tt)) network (λ n. tt)
