-- ===== src/Register/Page/Fit.antt =====
-- What the page sends and what it leaves in the queue.
use ise_endpoint_portal.Prelude.{
  ◌≡◌, inl, inr, Bool, true, false, if◌then◌else◌, not, ◌&&◌, List, [], ◌∷◌, Option, none, some,
  filter, All, All-append, Bool-cases, Option-cases,
}
use ise_endpoint_portal.Js.Text.{Text, ◌===◌, truthy}
use ise_endpoint_portal.Csv.Mac.{mac_re}
use ise_endpoint_portal.OfflineQueue.{
  Stored, load, without_id, remove_by_id, is_network, Outcome, resolved, thrown,
}
use ise_endpoint_portal.Register.Mac.{submitted_mac}
use ise_endpoint_portal.Register.Context.{Context}
use ise_endpoint_portal.Register.Form.{Template, Payload, edit}
use ise_endpoint_portal.Register.Form.Choices.{IsChosen, edit-IsChosen, blank_form-IsChosen}
use ise_endpoint_portal.Register.Form.Payloads.{IsFit, payload_of-IsFit}
use ise_endpoint_portal.Register.Page.{
  Page, initial, submit, answered, Event, edits, submits, answers, flush_removes, flush_ends,
  online_flushed, saved_template, saving_failed, leaves, is_unauthorized, handle, handle_all,
}
use ise_endpoint_portal.Register.Page.Steps.{
  submit-sends, submit-no_template, submit-invalid, submit-disabled, answer, answered-none,
  answered-some, load-enqueue,
}

abbrev IsFit? : Context → Option Payload → Type 0
IsFit? cx none = Unit
IsFit? cx (some p) = IsFit cx p

-- The payload that is being sent, those that were created, and those in the queue are fit; the form's
-- selects hold options.
pub record IsSound (cx : Context) (page : Page) : Type 0 where
  pub chosen : IsChosen cx page.form
  pub waiting : IsFit? cx page.waiting
  pub created : All (IsFit cx) page.created
  pub queued : All (λ x. IsFit cx x.payload) (load page.queue)

initial-IsSound :
    (cx : Context) (tpls : List Template) (queue : Stored Payload)
    → All (λ x. IsFit cx x.payload) (load queue)
    → IsSound cx (initial cx tpls queue)
unfolding initial
initial-IsSound cx tpls queue h = record {
  chosen = blank_form-IsChosen cx;
  waiting = tt;
  created = tt;
  queued = h;
}

submit-IsSound : (cx : Context) (page : Page) → IsSound cx page → IsSound cx (submit cx page)
submit-IsSound cx page h = elim (Bool-cases page.disabled) [
  | inl d ↦ rw (submit-disabled cx page d) h
  | inr d ↦ elim (Bool-cases (mac_re (submitted_mac page.form.mac))) [
    | inr m ↦
        rw (submit-invalid cx page d m) (record {
          chosen = h.chosen;
          waiting = h.waiting;
          created = h.created;
          queued = h.queued;
        })
    | inl m ↦ elim (Bool-cases (cx.is_registrant && not (truthy page.form.template))) [
      | inl r ↦ rw (submit-no_template cx page d m r) (record {
        chosen = h.chosen;
        waiting = h.waiting;
        created = h.created;
        queued = h.queued;
      })
      | inr r ↦ rw (submit-sends cx page d m r) (record {
        chosen = h.chosen;
        waiting = payload_of-IsFit cx page.form h.chosen m;
        created = h.created;
        queued = h.queued;
      })
    ]
  ]
]

answer-IsSound :
    (cx : Context) (id at : Text) (o : Outcome) (p : Payload) (page : Page)
    → IsFit cx p
    → IsSound cx page
    → IsSound cx (answer cx id at o p page)
answer-IsSound cx id at resolved p page k h = record {
  chosen = blank_form-IsChosen cx;
  waiting = tt;
  created = All-append (IsFit cx) page.created (p ∷ []) h.created (k, tt);
  queued = h.queued;
}
answer-IsSound cx id at (thrown e) p page k h = elim (Bool-cases (is_network e)) [
  | inl n ↦ rw n (record {
    chosen = blank_form-IsChosen cx;
    waiting = tt;
    created = h.created;
    queued =
        rw load-enqueue (All-append (λ x. IsFit cx x.payload) (load page.queue) _ h.queued (k, tt));
  })
  | inr n ↦ rw n (elim (Bool-cases (is_unauthorized e)) [
    | inl u ↦
        rw u (record { chosen = h.chosen; waiting = tt; created = h.created; queued = h.queued })
    | inr u ↦
        rw u (record { chosen = h.chosen; waiting = tt; created = h.created; queued = h.queued })
  ])
]

waiting-IsFit :
    (cx : Context) (w : Option Payload) (p : Payload) → w ≡ some p → IsFit? cx w → IsFit cx p
waiting-IsFit cx w p e h = rw e at h

answered-IsSound :
    (cx : Context) (id at : Text) (o : Outcome) (page : Page)
    → IsSound cx page
    → IsSound cx (answered cx id at o page)
answered-IsSound cx id at o page h = elim (Option-cases page.waiting) [
  | inl e ↦ rw (answered-none cx id at o page e) h
  | inr (p, e) ↦
      rw (answered-some cx id at o p page e)
        (answer-IsSound cx id at o p page (waiting-IsFit cx page.waiting p e h.waiting) h)
]

All-filter :
    {A : Type 0} (Q : A → Type 0) (keep : A → Bool) (xs : List A)
    → All Q xs
    → All Q (filter keep xs)
All-filter Q keep [] h = tt
All-filter Q keep (x ∷ xs) (h, t) = elim (Bool-cases (keep x)) [
  | inl e ↦ rw e (h, All-filter Q keep xs t)
  | inr e ↦ rw e (All-filter Q keep xs t)
]

remove_by_id-IsFit :
    (cx : Context) (id : Text) (s : Stored Payload)
    → All (λ x. IsFit cx x.payload) (load s)
    → All (λ x. IsFit cx x.payload) (load (remove_by_id id s))
unfolding remove_by_id without_id
remove_by_id-IsFit cx id s h =
    All-filter (λ x. IsFit cx x.payload) (λ it. not (it.id === id)) (load s) h

handle-IsSound :
    (cx : Context) (e : Event) (page : Page) → IsSound cx page → IsSound cx (handle cx e page)
unfolding handle
handle-IsSound cx (edits e) page h = record {
  chosen =
      elim page.left
        as (λ b. IsChosen cx (if b then page.form else edit cx page.templates e page.form)) [
          | true ↦ h.chosen
          | false ↦ edit-IsChosen cx page.templates e page.form h.chosen
        ];
  waiting = h.waiting;
  created = h.created;
  queued = h.queued;
}
handle-IsSound cx leaves page h = record {
  chosen = h.chosen;
  waiting = h.waiting;
  created = h.created;
  queued = h.queued;
}
handle-IsSound cx submits page h = submit-IsSound cx page h
handle-IsSound cx (answers id at o) page h = answered-IsSound cx id at o page h
handle-IsSound cx (flush_removes id) page h = record {
  chosen = h.chosen;
  waiting = h.waiting;
  created = h.created;
  queued = remove_by_id-IsFit cx id page.queue h.queued;
}
handle-IsSound cx (flush_ends sent failed) page h = record {
  chosen = h.chosen;
  waiting = h.waiting;
  created = h.created;
  queued = h.queued;
}
handle-IsSound cx online_flushed page h = record {
  chosen = h.chosen;
  waiting = h.waiting;
  created = h.created;
  queued = h.queued;
}
handle-IsSound cx (saved_template tpls) page h = record {
  chosen = record { group = h.chosen.group; attrs = h.chosen.attrs };
  waiting = h.waiting;
  created = h.created;
  queued = h.queued;
}
handle-IsSound cx (saving_failed m) page h = record {
  chosen = h.chosen;
  waiting = h.waiting;
  created = h.created;
  queued = h.queued;
}

steps-IsSound :
    (cx : Context) (es : List Event) (page : Page)
    → IsSound cx page
    → IsSound cx (handle_all cx es page)
unfolding handle_all
steps-IsSound cx [] page h = h
steps-IsSound cx (e ∷ es) page h =
    steps-IsSound cx es (handle cx e page) (handle-IsSound cx e page h)

-- Whatever is done on the page, from a queue whose payloads are fit: every payload that is sent, was
-- created or waits in the queue has a canonical address, a group and attributes that are options of
-- their selects (or none), the user's name, roles only of the catalogue and only if the user may give
-- roles, and key attributes only if the user may edit keys.
pub handle_all-IsSound :
    (cx : Context) (es : List Event) (tpls : List Template) (queue : Stored Payload)
    → All (λ x. IsFit cx x.payload) (load queue)
    → IsSound cx (handle_all cx es (initial cx tpls queue))
handle_all-IsSound cx es tpls queue h =
    steps-IsSound cx es (initial cx tpls queue) (initial-IsSound cx tpls queue h)
