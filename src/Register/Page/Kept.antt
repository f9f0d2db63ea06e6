-- ===== src/Register/Page/Kept.antt =====
-- What becomes of a registration that is sent.
use ise_endpoint_portal.Prelude.{
  ℕ, arith, ◌≡◌, some, refl, sym, ◌⊎◌, inl, inr, true, false, not, ◌&&◌, List, [], ◌∷◌, All,
}
use ise_endpoint_portal.Js.Text.{Text, truthy}
use ise_endpoint_portal.Js.Text.Laws.{===_refl}
use ise_endpoint_portal.Csv.Mac.{mac_re}
use ise_endpoint_portal.OfflineQueue.{
  Queued, load, is_network, Thrown, Outcome, thrown, Turn, flush_all,
}
use ise_endpoint_portal.OfflineQueue.Safety.{has_id, Spares, flush_all-Held}
use ise_endpoint_portal.Register.Mac.{submitted_mac}
use ise_endpoint_portal.Register.Context.{Context}
use ise_endpoint_portal.Register.Form.{Payload, payload_of}
use ise_endpoint_portal.Register.Page.{
  Page, submit, answered, Event, edits, submits, answers, flush_removes, flush_ends, online_flushed,
  saved_template, saving_failed, leaves, handle, handle_all,
}
use ise_endpoint_portal.Register.Page.Steps.{submit-sends, submit-disabled, answer, answered-some}
use ise_endpoint_portal.Register.Page.Held.{
  IsIn, SparesItem, Holds, handle_all-Holds, IsIn-queue, IsRefused, IsGone, answer-Kept,
}

-- nothing but the answer of the call
abbrev pub IsNoAnswer : Event → Type 0
IsNoAnswer (answers id at o) = ⊥
IsNoAnswer _ = Unit

-- a call runs with this payload
abbrev IsBusy : Payload → Page → Type 0
IsBusy p page = (page.waiting ≡ some p) × (page.disabled ≡ true)

handle-IsBusy :
    (cx : Context) (p : Payload) (e : Event) (page : Page)
    → IsNoAnswer e
    → IsBusy p page
    → IsBusy p (handle cx e page)
unfolding handle
handle-IsBusy cx p (edits e) page n h = h
handle-IsBusy cx p submits page n h = rw (submit-disabled cx page h.1) h
handle-IsBusy cx p (answers id at o) page n h = absurd n
handle-IsBusy cx p (flush_removes id) page n h = h
handle-IsBusy cx p (flush_ends sent failed) page n h = h
handle-IsBusy cx p online_flushed page n h = h
handle-IsBusy cx p (saved_template tpls) page n h = h
handle-IsBusy cx p (saving_failed m) page n h = h
handle-IsBusy cx p leaves page n (w, d) = (w, refl)

handle_all-IsBusy :
    (cx : Context) (p : Payload) (es : List Event) (page : Page)
    → All IsNoAnswer es
    → IsBusy p page
    → IsBusy p (handle_all cx es page)
unfolding handle_all
handle_all-IsBusy cx p [] page n h = h
handle_all-IsBusy cx p (e ∷ es) page (n, k) h =
    handle_all-IsBusy cx p es (handle cx e page) k (handle-IsBusy cx p e page n h)

-- The page when the call ends, after a submit and what is done meanwhile, and then.
abbrev pub when_called : Context → List Event → Page → Page
when_called cx meanwhile page = handle_all cx (submits ∷ meanwhile) page

abbrev pub when_answered : Context → (id at : Text) → Outcome → List Event → Page → Page
when_answered cx id at o meanwhile page = answered cx id at o (when_called cx meanwhile page)

-- a form that is sent
abbrev pub IsSendable : Context → Page → Type 0
IsSendable cx page =
    (page.disabled ≡ false)
    × (mac_re (submitted_mac page.form.mac) ≡ true)
    × ((cx.is_registrant && not (truthy page.form.template)) ≡ false)

submits-IsBusy :
    (cx : Context) (page : Page)
    → IsSendable cx page
    → IsBusy (payload_of cx page.form) (submit cx page)
submits-IsBusy cx page (d, m, r) = rw (submit-sends cx page d m r) (refl, refl)

when_called-waiting :
    (cx : Context) (meanwhile : List Event) (page : Page)
    → IsSendable cx page
    → All IsNoAnswer meanwhile
    → (when_called cx meanwhile page).waiting ≡ some (payload_of cx page.form)
unfolding handle_all handle
when_called-waiting cx meanwhile page h n =
    (handle_all-IsBusy cx (payload_of cx page.form) meanwhile (submit cx page) n
      (submits-IsBusy cx page h)).0

when_answered-answer :
    (cx : Context) (id at : Text) (o : Outcome) (meanwhile : List Event) (page : Page)
    → IsSendable cx page
    → All IsNoAnswer meanwhile
    → when_answered cx id at o meanwhile page
      ≡ answer cx id at o (payload_of cx page.form) (when_called cx meanwhile page)
when_answered-answer cx id at o meanwhile page h n =
    answered-some cx id at o (payload_of cx page.form) (when_called cx meanwhile page)
      (when_called-waiting cx meanwhile page h n)

-- Where the button is enabled and the form is submitted with an address that is accepted and, by a
-- registrant, a template, then whatever is done on the page while the call runs and afterwards: the payload
-- was created or waits in the queue, unless a flush takes it out after the call; or the call was refused, and
-- the form is shown as it was when the call ended, enabled and with the error's message; or the call was
-- refused and the page is left, either by the 401 of this call or before the call ended.
pub handle_all-Holds_or_IsRefused :
    (cx : Context) (id at : Text) (o : Outcome) (meanwhile es : List Event) (page : Page)
    → IsSendable cx page
    → All IsNoAnswer meanwhile
    → All (SparesItem id) es
    → Holds
        (record { id = id; payload = payload_of cx page.form; enqueued_at = at })
        (handle_all cx es (when_answered cx id at o meanwhile page))
      ⊎ ((e : Thrown) × (o ≡ thrown e)
          × (is_network e ≡ false)
          × (IsRefused e (when_called cx meanwhile page) (when_answered cx id at o meanwhile page)
              ⊎ IsGone e (when_called cx meanwhile page) (when_answered cx id at o meanwhile page)))
handle_all-Holds_or_IsRefused cx id at o meanwhile es page h n s =
    rw (when_answered-answer cx id at o meanwhile page h n)
      (elim (answer-Kept cx id at o (payload_of cx page.form) (when_called cx meanwhile page)) [
        | inl k ↦ inl (
            handle_all-Holds cx
              (record { id = id; payload = payload_of cx page.form; enqueued_at = at }) es
              (answer cx id at o (payload_of cx page.form) (when_called cx meanwhile page)) s k)
        | inr k ↦ inr k
      ])

IsIn-has_id :
    (item : Queued Payload) (xs : List (Queued Payload)) → IsIn item xs → has_id item.id xs ≡ true
IsIn-has_id item [] h = absurd h
IsIn-has_id item (y ∷ xs) (inl e) = rw (sym e, ===_refl item.id) refl
IsIn-has_id item (y ∷ xs) (inr h) = rw (IsIn-has_id item xs h) (ground arith)

-- An item of the queue, whatever is done on the page and then by other handlers during a flush: the
-- flush leaves it in the queue, or its call was made.
flush_all-IsIn :
    (cx : Context) (item : Queued Payload) (page : Page) (world : ℕ → Turn Payload)
    → ((n : ℕ) → All (Spares item.id) (world n).meanwhile)
    → IsIn item (load page.queue)
    → (has_id item.id (load (flush_all world page.queue).stored) ≡ true)
      ⊎ (has_id item.id (flush_all world page.queue).called ≡ true)
flush_all-IsIn cx item page world h k =
    flush_all-Held world item.id page.queue h (IsIn-has_id item (load page.queue) k)

answer-offline :
    (cx : Context) (id at : Text) (e : Thrown) (p : Payload) (page : Page)
    → is_network e ≡ true
    → IsIn
        (record { id = id; payload = p; enqueued_at = at })
        (load (answer cx id at (thrown e) p page).queue)
answer-offline cx id at e p page n = rw n (IsIn-queue id at p page)

-- A registration that is sent, and for which there is no connection, goes to the queue, whatever is done on
-- the page meanwhile, and a flush that follows at once, whatever other handlers do during it but take the
-- item out, leaves it there or makes its call.
pub flush_all-when_answered :
    (cx : Context) (id at : Text) (e : Thrown) (meanwhile : List Event) (page : Page)
    (world : ℕ → Turn Payload)
    → IsSendable cx page
    → All IsNoAnswer meanwhile
    → is_network e ≡ true
    → ((n : ℕ) → All (Spares id) (world n).meanwhile)
    → (has_id id
          (load (flush_all world (when_answered cx id at (thrown e) meanwhile page).queue).stored)
        ≡ true)
      ⊎ (has_id id (flush_all world (when_answered cx id at (thrown e) meanwhile page).queue).called
          ≡ true)
flush_all-when_answered cx id at e meanwhile page world h n w spared =
    rw (when_answered-answer cx id at (thrown e) meanwhile page h n) (
      flush_all-IsIn cx (record { id = id; payload = payload_of cx page.form; enqueued_at = at })
        (answer cx id at (thrown e) (payload_of cx page.form) (when_called cx meanwhile page)) world
        spared
        (answer-offline cx id at e (payload_of cx page.form) (when_called cx meanwhile page) w))
