-- ===== src/Register/Page/Steps.antt =====
-- The submit handler by its guards, and by the end of its call.
use ise_endpoint_portal.Prelude.{
  ◌≡◌, refl, ap, true, false, not, ◌&&◌, [], ◌∷◌, ◌++◌, none, some, if◌then◌else◌,
}
use ise_endpoint_portal.Js.Text.{Text, truthy}
use ise_endpoint_portal.Csv.Mac.{mac_re}
use ise_endpoint_portal.OfflineQueue.{
  Queued, Stored, load, enqueue, is_network, Outcome, resolved, thrown,
}
use ise_endpoint_portal.Register.Mac.{submitted_mac}
use ise_endpoint_portal.Register.Context.{Context}
use ise_endpoint_portal.Register.Form.{Payload, payload_of, blank_form}
use ise_endpoint_portal.Register.Page.{
  Page, submit, invalid_mac, no_template, no_message, registered, enqueued, is_unauthorized, leave,
  refused_by, answered,
}

abbrev pub sending : Context → Page → Page
sending cx page = record page {
  message = no_message;
  waiting = some (payload_of cx page.form);
  disabled = true;
}

pub submit-sends :
    (cx : Context) (page : Page)
    → page.disabled ≡ false
    → mac_re (submitted_mac page.form.mac) ≡ true
    → (cx.is_registrant && not (truthy page.form.template)) ≡ false
    → submit cx page ≡ sending cx page
unfolding submit
submit-sends cx page d m r = rw (d, m, r) refl

pub submit-no_template :
    (cx : Context) (page : Page)
    → page.disabled ≡ false
    → mac_re (submitted_mac page.form.mac) ≡ true
    → (cx.is_registrant && not (truthy page.form.template)) ≡ true
    → submit cx page ≡ record page { message = no_template }
unfolding submit
submit-no_template cx page d m r = rw (d, m, r) refl

pub submit-invalid :
    (cx : Context) (page : Page)
    → page.disabled ≡ false
    → mac_re (submitted_mac page.form.mac) ≡ false
    → submit cx page ≡ record page { message = invalid_mac }
unfolding submit
submit-invalid cx page d m = rw (d, m) refl

pub submit-disabled : (cx : Context) (page : Page) → page.disabled ≡ true → submit cx page ≡ page
unfolding submit
submit-disabled cx page d = rw d refl

pub answered-none :
    (cx : Context) (id at : Text) (o : Outcome) (page : Page)
    → page.waiting ≡ none
    → answered cx id at o page ≡ page
unfolding answered
answered-none cx id at o page e = rw e refl

abbrev pub answer : Context → (id at : Text) → Outcome → Payload → Page → Page
answer cx id at o p page = elim o [
  | resolved ↦ record page {
    form = blank_form cx;
    message = registered p.mac;
    waiting = none;
    disabled = page.left;
    created = page.created ++ p ∷ [];
  }
  | thrown e ↦
      if is_network e
      then enqueued cx id at p page
      else if is_unauthorized e
      then refused_by e (leave page)
      else refused_by e page
]

pub answered-some :
    (cx : Context) (id at : Text) (o : Outcome) (p : Payload) (page : Page)
    → page.waiting ≡ some p
    → answered cx id at o page ≡ answer cx id at o p page
unfolding answered
answered-some cx id at o p page e =
    ap (λ w. elim w [ none ↦ page | some q ↦ answer cx id at o q page ]) e

pub load-enqueue :
    (x : Queued Payload) (s : Stored Payload) → load (enqueue x s).0 ≡ load s ++ x ∷ []
unfolding enqueue
load-enqueue x s = refl
