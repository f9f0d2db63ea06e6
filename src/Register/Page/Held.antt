-- ===== src/Register/Page/Held.antt =====
-- What stays on the page: a payload that was created, or that waits in the queue.
use ise_endpoint_portal.Prelude.{
  ◌≡◌, refl, sym, ap, ◌⊎◌, inl, inr, Bool, true, false, not, ◌&&◌, List, [], ◌∷◌, ◌++◌, filter, All,
  Bool-cases, Option-cases, if◌then◌else◌,
}
use ise_endpoint_portal.Js.Text.{Text, ◌===◌, truthy}
use ise_endpoint_portal.Csv.Mac.{mac_re}
use ise_endpoint_portal.OfflineQueue.{
  Queued, Stored, load, enqueue, without_id, remove_by_id, is_network, Thrown, Outcome, resolved,
  thrown,
}
use ise_endpoint_portal.Register.Mac.{submitted_mac}
use ise_endpoint_portal.Register.Context.{Context}
use ise_endpoint_portal.Register.Form.{Payload}
use ise_endpoint_portal.Register.Page.{
  Page, submit, refused, is_unauthorized, leave, refused_by, answered, Event, edits, submits,
  answers, flush_removes, flush_ends, online_flushed, saved_template, saving_failed, leaves, handle,
  handle_all,
}
use ise_endpoint_portal.Register.Page.Steps.{
  submit-sends, submit-no_template, submit-invalid, submit-disabled, answer, answered-none,
  answered-some, load-enqueue,
}

module _ {A : Type 0} where
  abbrev pub IsIn : A → List A → Type 0
  IsIn x [] = ⊥
  IsIn x (y ∷ ys) = (x ≡ y) ⊎ IsIn x ys

  IsIn-left : (x : A) (xs ys : List A) → IsIn x xs → IsIn x (xs ++ ys)
  IsIn-left x [] ys h = absurd h
  IsIn-left x (y ∷ xs) ys (inl e) = inl e
  IsIn-left x (y ∷ xs) ys (inr h) = inr (IsIn-left x xs ys h)

  IsIn-last : (x : A) (xs : List A) → IsIn x (xs ++ x ∷ [])
  IsIn-last x [] = inl refl
  IsIn-last x (y ∷ xs) = inr (IsIn-last x xs)

  IsIn-filter :
      (keep : A → Bool) (x : A) (xs : List A) → keep x ≡ true → IsIn x xs → IsIn x (filter keep xs)
  IsIn-filter keep x [] k h = absurd h
  IsIn-filter keep x (y ∷ xs) k (inl e) = rw (sym e, k) (inl refl)
  IsIn-filter keep x (y ∷ xs) k (inr h) = elim (Bool-cases (keep y)) [
    | inl e ↦ rw e (inr (IsIn-filter keep x xs k h))
    | inr e ↦ rw e (IsIn-filter keep x xs k h)
  ]

-- the event is no removal of the item with this id
abbrev pub SparesItem : Text → Event → Type 0
SparesItem id (flush_removes j) = (id === j) ≡ false
SparesItem id _ = Unit

-- a page on which the item waits, or its payload was created
abbrev pub Holds : Queued Payload → Page → Type 0
Holds item page = IsIn item.payload page.created ⊎ IsIn item (load page.queue)

of_same :
    (item : Queued Payload) (page page' : Page)
    → page.created ≡ page'.created
    → page.queue ≡ page'.queue
    → Holds item page
    → Holds item page'
of_same item page page' c q (inl h) = inl (rw (sym c) h)
of_same item page page' c q (inr h) = inr (rw (sym q) h)

-- a submit changes neither
submit-same :
    (cx : Context) (page : Page)
    → (page.created ≡ (submit cx page).created) × (page.queue ≡ (submit cx page).queue)
submit-same cx page = elim (Bool-cases page.disabled) [
  | inl d ↦ rw (submit-disabled cx page d) (refl, refl)
  | inr d ↦ elim (Bool-cases (mac_re (submitted_mac page.form.mac))) [
    | inr m ↦ rw (submit-invalid cx page d m) (refl, refl)
    | inl m ↦ elim (Bool-cases (cx.is_registrant && not (truthy page.form.template))) [
      | inl r ↦ rw (submit-no_template cx page d m r) (refl, refl)
      | inr r ↦ rw (submit-sends cx page d m r) (refl, refl)
    ]
  ]
]

answer-Holds :
    (cx : Context) (item : Queued Payload) (id at : Text) (o : Outcome) (p : Payload) (page : Page)
    → Holds item page
    → Holds item (answer cx id at o p page)
answer-Holds cx item id at resolved p page (inl h) =
    inl (IsIn-left item.payload page.created (p ∷ []) h)
answer-Holds cx item id at resolved p page (inr h) = inr h
answer-Holds cx item id at (thrown e) p page h = elim (Bool-cases (is_network e)) [
  | inr n ↦ rw n (elim (Bool-cases (is_unauthorized e)) [ inl u ↦ rw u h | inr u ↦ rw u h ])
  | inl n ↦ rw n (queued h)
]
  where
    queued :
        Holds item page
        → IsIn item.payload page.created
          ⊎ IsIn item
              (load (enqueue (record { id = id; payload = p; enqueued_at = at }) page.queue).0)
    queued (inl c) = inl c
    queued (inr q) = inr (rw load-enqueue (IsIn-left item (load page.queue) _ q))

answered-Holds :
    (cx : Context) (item : Queued Payload) (id at : Text) (o : Outcome) (page : Page)
    → Holds item page
    → Holds item (answered cx id at o page)
answered-Holds cx item id at o page h = elim (Option-cases page.waiting) [
  | inl e ↦ rw (answered-none cx id at o page e) h
  | inr (p, e) ↦ rw (answered-some cx id at o p page e) (answer-Holds cx item id at o p page h)
]

remove_by_id-IsIn :
    (item : Queued Payload) (id : Text) (s : Stored Payload)
    → (item.id === id) ≡ false
    → IsIn item (load s)
    → IsIn item (load (remove_by_id id s))
unfolding remove_by_id without_id
remove_by_id-IsIn item id s h k = IsIn-filter (λ it. not (it.id === id)) item (load s) (ap not h) k

handle-Holds :
    (cx : Context) (item : Queued Payload) (e : Event) (page : Page)
    → SparesItem item.id e
    → Holds item page
    → Holds item (handle cx e page)
unfolding handle
handle-Holds cx item (edits e) page s h = h
handle-Holds cx item submits page s h =
    of_same item page (submit cx page) (submit-same cx page).0 (submit-same cx page).1 h
handle-Holds cx item (answers id at o) page s h = answered-Holds cx item id at o page h
handle-Holds cx item (flush_removes id) page s (inl h) = inl h
handle-Holds cx item (flush_removes id) page s (inr h) =
    inr (remove_by_id-IsIn item id page.queue s h)
handle-Holds cx item (flush_ends sent failed) page s h = h
handle-Holds cx item online_flushed page s h = h
handle-Holds cx item (saved_template tpls) page s h = h
handle-Holds cx item (saving_failed m) page s h = h
handle-Holds cx item leaves page s h = h

pub handle_all-Holds :
    (cx : Context) (item : Queued Payload) (es : List Event) (page : Page)
    → All (SparesItem item.id) es
    → Holds item page
    → Holds item (handle_all cx es page)
unfolding handle_all
handle_all-Holds cx item [] page s h = h
handle_all-Holds cx item (e ∷ es) page (s, t) h =
    handle_all-Holds cx item es (handle cx e page) t (handle-Holds cx item e page s h)

pub IsIn-queue :
    (id at : Text) (p : Payload) (page : Page)
    → IsIn
        (record { id = id; payload = p; enqueued_at = at })
        (load (enqueue (record { id = id; payload = p; enqueued_at = at }) page.queue).0)
IsIn-queue id at p page = rw load-enqueue (IsIn-last _ (load page.queue))

-- The form is as it was, to be sent again, and the page shows the error.
pub record IsRefused (e : Thrown) (before after : Page) : Type 0 where
  pub form : after.form ≡ before.form
  pub enabled : after.disabled ≡ false
  pub shown : after.left ≡ false
  pub message : after.message ≡ refused e

-- The page is left, since the user was logged out or the page was left before.
pub record IsGone (e : Thrown) (before after : Page) : Type 0 where
  pub gone : after.left ≡ true
  pub reason : (is_unauthorized e ≡ true) ⊎ (before.left ≡ true)

-- How a call ends: the payload is created or in the queue, or the call was refused and its form is as it was,
-- or was refused and the page is left.
pub answer-Kept :
    (cx : Context) (id at : Text) (o : Outcome) (p : Payload) (page : Page)
    → Holds (record { id = id; payload = p; enqueued_at = at }) (answer cx id at o p page)
      ⊎ ((e : Thrown) × (o ≡ thrown e)
          × (is_network e ≡ false)
          × (IsRefused e page (answer cx id at o p page)
              ⊎ IsGone e page (answer cx id at o p page)))
answer-Kept cx id at resolved p page = inl (inl (IsIn-last p page.created))
answer-Kept cx id at (thrown e) p page = elim (Bool-cases (is_network e)) [
  | inl n ↦ rw n (inl (inr (IsIn-queue id at p page)))
  | inr n ↦ inr (e, refl, n, rw n (by_status (is_unauthorized e) refl))
]
  where
    by_status :
        (b : Bool)
        → is_unauthorized e ≡ b
        → IsRefused e page (if b then refused_by e (leave page) else refused_by e page)
          ⊎ IsGone e page (if b then refused_by e (leave page) else refused_by e page)
    by_status true u = inr (record { gone = refl; reason = inl u })
    by_status false u = elim (Bool-cases page.left) [
      | inl l ↦ inr (record { gone = l; reason = inr l })
      | inr l ↦ inl (record { form = refl; enabled = l; shown = l; message = refl })
    ]
