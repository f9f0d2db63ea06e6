-- ===== src/Register/Page.antt =====
-- frontend/js/views/register.js: the page: the form, its messages and the offline queue behind it. A
-- call of the submit handler ends by an event of its own, so what happens meanwhile is other events. The
-- view may be replaced by another one, by the login after a 401 among them; its handlers still end.
pub mod Steps
pub mod Fit
pub mod Held
pub mod Kept
use ise_endpoint_portal.Prelude.{
  ℕ, zero, suc, Bool, true, false, not, ◌&&◌, List, [], ◌∷◌, ◌++◌, Option, none, some,
  if◌then◌else◌,
}
use ise_endpoint_portal.Js.Text.{Text, codes, ◌===◌, truthy}
use ise_endpoint_portal.Csv.Mac.{mac_re}
use ise_endpoint_portal.OfflineQueue.{
  Queued, Stored, enqueue, remove_by_id, size, is_network, Thrown, message, without_message,
  Outcome, resolved, thrown,
}
use ise_endpoint_portal.Register.Mac.{submitted_mac}
use ise_endpoint_portal.Register.Context.{Context}
use ise_endpoint_portal.Register.Form.{Form, Template, Edit, edit, blank_form, Payload, payload_of}

-- what the page says above the form
pub data Message : Type 0 where
  no_message invalid_mac no_template : Message
  registered saved_offline : (mac : Text) → Message
  refused : Thrown → Message
  queue_sent queue_failed : ℕ → Message
  template_saved : Message
  template_not_saved : Text → Message

-- `created` are the payloads whose call succeeded; `banner` is the number that the banner shows. A page that
-- is `left` has its form no longer in the document: nothing can be typed or pressed there any more, so that
-- its button counts as disabled.
pub record Page : Type 0 where
  pub templates : List Template
  pub form : Form
  pub message : Message
  pub waiting : Option Payload
  pub disabled : Bool
  pub left : Bool
  pub queue : Stored Payload
  pub banner : ℕ
  pub created : List Payload

-- the page when it is drawn; a registrant without templates cannot submit
unfoldable pub initial : Context → List Template → Stored Payload → Page
unfolding blank_form
initial cx templates queue = record {
  templates = templates;
  form = blank_form cx;
  message = no_message;
  waiting = none;
  disabled = cx.is_registrant && not (any_template templates);
  left = false;
  queue = queue;
  banner = size queue;
  created = [];
}
  where
    any_template : List Template → Bool
    any_template [] = false
    any_template (t ∷ ts) = true

-- the submit handler up to its call; a disabled button does nothing
unfoldable pub submit : Context → Page → Page
unfolding payload_of submitted_mac mac_re
submit cx page =
    if page.disabled
    then page
    else if not (mac_re (submitted_mac page.form.mac))
    then record page { message = invalid_mac }
    else if cx.is_registrant && not (truthy page.form.template)
    then record page { message = no_template }
    else record page {
      message = no_message;
      waiting = some (payload_of cx page.form);
      disabled = true;
    }

abbrev pub enqueued : Context → (id at : Text) → Payload → Page → Page
enqueued cx id at p page =
    let (queue, n) = enqueue (record { id = id; payload = p; enqueued_at = at }) page.queue in
    record page {
      form = blank_form cx;
      message = saved_offline p.mac;
      waiting = none;
      disabled = page.left;
      queue = queue;
      banner = size queue;
    }

-- what `request` of frontend/js/api.js throws after a 401, behind the login that it has shown by then
unfoldable pub is_unauthorized : Thrown → Bool
unfolding ◌===◌
is_unauthorized (message m) = m === codes "401: ikke logget ind"
is_unauthorized without_message = false

-- `showLogin` or another view takes the place of the page.
abbrev pub leave : Page → Page
leave page = record page { disabled = true; left = true }

abbrev pub refused_by : Thrown → Page → Page
refused_by e page = record page { message = refused e; waiting = none; disabled = page.left }

-- the rest of the handler: how the call ends
unfoldable pub answered : Context → (id at : Text) → Outcome → Page → Page
unfolding blank_form enqueue is_network
answered cx id at o page = elim page.waiting [
  | none ↦ page
  | some p ↦ elim o [
    | resolved ↦ record page {
      form = blank_form cx;
      message = registered p.mac;
      waiting = none;
      disabled = page.left;
      created = page.created ++ p ∷ [];
    }
    | thrown e ↦
        if is_network e
        then enqueued cx id at p page
        else if is_unauthorized e
        then refused_by e (leave page)
        else refused_by e page
  ]
]

abbrev pub flush_message : (sent failed : ℕ) → Message → Message
flush_message zero zero m = m
flush_message (suc n) zero m = queue_sent (suc n)
flush_message n (suc f) m = queue_failed (suc f)

-- Events of the page. A flush takes items out of the queue one by one, and ends with its counts if it
-- was started here. A template that is saved is followed by the new list, in the place of the options. The
-- user leaves the page, or the 401 of another call does.
pub data Event : Type 0 where
  edits : Edit → Event
  submits : Event
  answers : (id at : Text) → Outcome → Event
  flush_removes : (id : Text) → Event
  flush_ends : (sent failed : ℕ) → Event
  online_flushed : Event
  saved_template : List Template → Event
  saving_failed : Text → Event
  leaves : Event

unfoldable pub handle : Context → Event → Page → Page
unfolding edit submit answered remove_by_id
handle cx (edits e) page = record page {
  form = if page.left then page.form else edit cx page.templates e page.form;
}
handle cx submits page = submit cx page
handle cx (answers id at o) page = answered cx id at o page
handle cx (flush_removes id) page = record page { queue = remove_by_id id page.queue }
handle cx (flush_ends sent failed) page = record page {
  message = flush_message sent failed page.message;
  banner = size page.queue;
}
handle cx online_flushed page = record page { banner = size page.queue }
handle cx (saved_template templates) page = record page {
  templates = templates;
  form = record page.form { template = [] };
  message = template_saved;
}
handle cx (saving_failed m) page = record page { message = template_not_saved m }
handle cx leaves page = leave page

unfoldable pub handle_all : Context → List Event → Page → Page
unfolding handle
handle_all cx [] page = page
handle_all cx (e ∷ es) page = handle_all cx es (handle cx e page)
