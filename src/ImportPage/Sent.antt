-- ===== src/ImportPage/Sent.antt =====
-- What an import sends.
use ise_endpoint_portal.Prelude.{
  ℕ, zero, suc, ◌≡◌, ◌≤◌, refl, sym, ap, ◌∙◌, inl, inr, Bool, true, false, ◌&&◌, ◌||◌, List, [],
  ◌∷◌, if◌then◌else◌, map, filter, length, ◌==◌, leb, All, arith, Bool-cases,
}
use ise_endpoint_portal.Js.Text.{Text, upper, to_upper_case, replace_all}
use ise_endpoint_portal.Csv.Mac.{is_hex, is_mac_separator, mac_pairs, mac_re}
use ise_endpoint_portal.Csv.Import.{Item, parse_csv, Format}
use ise_endpoint_portal.Csv.Import.Laws.{IsChecked, parse_csv-IsChecked}
use ise_endpoint_portal.ImportPage.{
  Group, groups_by_name, sent_mac, new_endpoint, is_valid, import_items, Page, BulkOutcome, initial,
  show_preview, click_preview, click_import, set_text, Event, text_set, previews, imports, handle,
  handle_all, valid_count, result_of,
}

-- a digit, or an upper-case letter up to F
abbrev pub is_upper_hex : ℕ → Bool
is_upper_hex c = (leb b'0' c && leb c b'9') || (leb b'A' c && leb c b'F')

-- pairs of upper-case hexadecimal digits with colons between them
abbrev pub canonical_pairs : ℕ → Text → Bool
canonical_pairs zero (a ∷ b ∷ []) = is_upper_hex a && is_upper_hex b
canonical_pairs (suc n) (a ∷ b ∷ c ∷ s) =
    (is_upper_hex a && is_upper_hex b && c == b':') && canonical_pairs n s
canonical_pairs _ _ = false

abbrev pub is_canonical_mac : Text → Bool
is_canonical_mac s = canonical_pairs 5 s

-- a unit of an address as it is sent
abbrev sent_unit : ℕ → ℕ
sent_unit c = if upper c == b'-' then b':' else upper c

sent_mac-cons : (c : ℕ) (s : Text) → sent_mac (c ∷ s) ≡ sent_unit c ∷ sent_mac s
unfolding sent_mac to_upper_case replace_all
sent_mac-cons c s = elim (Bool-cases (upper c == b'-')) [ inl e ↦ rw e refl | inr e ↦ rw e refl ]

sent_unit-hex : (c : ℕ) → is_hex c ≡ true → is_upper_hex (sent_unit c) ≡ true
unfolding is_hex upper
sent_unit-hex c h = ground (arith, h)

sent_unit-separator : (c : ℕ) → is_mac_separator c ≡ true → (sent_unit c == b':') ≡ true
unfolding upper
sent_unit-separator c h = ground (arith, h)

sent_mac-nil : sent_mac [] ≡ []
unfolding sent_mac to_upper_case replace_all
sent_mac-nil = refl

pub &&-split : (a b : Bool) → (a && b) ≡ true → (a ≡ true) × (b ≡ true)
&&-split a b h = ground arith

sent_pairs : (n : ℕ) (s : Text) → mac_pairs n s ≡ true → canonical_pairs n (sent_mac s) ≡ true
unfolding mac_pairs
sent_pairs zero (a ∷ b ∷ []) h =
    let (ha, hb) = &&-split (is_hex a) (is_hex b) h in
    rw
      (
        sent_mac-cons a (b ∷ []),
        sent_mac-cons b [],
        sent_mac-nil,
        sent_unit-hex a ha,
        sent_unit-hex b hb,
      )
      refl
sent_pairs zero [] h = absurd (cc h)
sent_pairs zero (a ∷ []) h = absurd (cc h)
sent_pairs zero (a ∷ b ∷ c ∷ s) h = absurd (cc h)
sent_pairs (suc n) (a ∷ b ∷ c ∷ s) h =
    let (front, t) = &&-split (is_hex a && is_hex b && is_mac_separator c) (mac_pairs n s) h in
    let (hab, hc) = &&-split (is_hex a && is_hex b) (is_mac_separator c) front in
    let (ha, hb) = &&-split (is_hex a) (is_hex b) hab in
    rw
      (
        sent_mac-cons a (b ∷ c ∷ s),
        sent_mac-cons b (c ∷ s),
        sent_mac-cons c s,
        sent_unit-hex a ha,
        sent_unit-hex b hb,
        sent_unit-separator c hc,
        sent_pairs n s t,
      )
      refl
sent_pairs (suc n) [] h = absurd (cc h)
sent_pairs (suc n) (a ∷ []) h = absurd (cc h)
sent_pairs (suc n) (a ∷ b ∷ []) h = absurd (cc h)

new_endpoint-mac :
    (groups : List Group) (fallback : Text) (p : Item)
    → (new_endpoint (groups_by_name groups) fallback p).mac ≡ sent_mac p.mac
unfolding new_endpoint
new_endpoint-mac groups fallback p = refl

import_items-canonical :
    (groups : List Group) (fallback : Text) (ps : List Item)
    → All IsChecked ps
    → All (λ e. is_canonical_mac e.mac ≡ true) (import_items groups fallback ps)
unfolding import_items
import_items-canonical groups fallback [] h = tt
import_items-canonical groups fallback (p ∷ ps) (h, t) = elim (Bool-cases p.valid) [
  | inl e ↦ rw e (
    ap is_canonical_mac (new_endpoint-mac groups fallback p)
        ∙ sent_pairs 5 p.mac (is_mac p (sym h ∙ e)),
    import_items-canonical groups fallback ps t,
  )
  | inr e ↦ rw e (import_items-canonical groups fallback ps t)
]
  where
    is_mac : (q : Item) → mac_re q.mac ≡ true → mac_pairs 5 q.mac ≡ true
    is_mac q e = unfold mac_re in e

length-import_items :
    (groups : List Group) (fallback : Text) (ps : List Item)
    → length (import_items groups fallback ps) ≡ valid_count ps
unfolding import_items
length-import_items groups fallback ps = length-map (filter is_valid ps)
  where
    length-map :
        (qs : List Item)
        → length (map (new_endpoint (groups_by_name groups) fallback) qs) ≡ length qs
    length-map [] = refl
    length-map (q ∷ qs) = ap suc (length-map qs)

-- What the page keeps true: its rows are those of a text, and the import button is enabled only
-- if one of them is valid.
record IsReady (page : Page) : Type 0 where
  checked : All IsChecked page.parsed
  has_valid : (page.import_disabled || leb 1 (valid_count page.parsed)) ≡ true

show_preview-IsReady :
    (format : Format) (items : List Item) (page : Page)
    → All IsChecked items
    → IsReady (show_preview format items page)
show_preview-IsReady format [] page h = record { checked = tt; has_valid = refl }
show_preview-IsReady format (p ∷ ps) page h = record { checked = h; has_valid = ground arith }

click_import-disabled :
    (o : BulkOutcome) (page : Page) → page.import_disabled ≡ true → click_import o page ≡ page
unfolding click_import
click_import-disabled o page h = ground (arith, h)

click_import-enabled :
    (o : BulkOutcome) (page : Page)
    → page.import_disabled ≡ false
    → click_import o page ≡ record page { result = result_of o; import_disabled = false }
unfolding click_import
click_import-enabled o page h = ground (arith, h)

handle-IsReady : (e : Event) (page : Page) → IsReady page → IsReady (handle e page)
unfolding handle
handle-IsReady (text_set text) page h =
    unfold set_text in record { checked = h.checked; has_valid = h.has_valid }
handle-IsReady previews page h =
    unfold click_preview in
    show_preview-IsReady (parse_csv page.text).0 (parse_csv page.text).1 page
      (parse_csv-IsChecked page.text)
handle-IsReady (imports o) page h = elim (Bool-cases page.import_disabled) [
  | inl e ↦ rw (click_import-disabled o page e) h
  | inr e ↦
      rw (click_import-enabled o page e)
        (record { checked = h.checked; has_valid = ground (arith, e, h.has_valid) })
]

handle_all-IsReady : (es : List Event) (page : Page) → IsReady page → IsReady (handle_all es page)
unfolding handle_all
handle_all-IsReady [] page h = h
handle_all-IsReady (e ∷ es) page h = handle_all-IsReady es (handle e page) (handle-IsReady e page h)

-- Whatever is done on the page, while no import runs during a preview, an import that its button
-- allows sends at least one endpoint, and each endpoint that is sent has an address of six pairs of
-- upper-case hexadecimal digits with colons between them.
pub import_items-handle_all :
    (es : List Event) (groups : List Group) (fallback : Text)
    → (handle_all es initial).import_disabled ≡ false
    → (1 ≤ length (import_items groups fallback (handle_all es initial).parsed))
      × All
          (λ e. is_canonical_mac e.mac ≡ true)
          (import_items groups fallback (handle_all es initial).parsed)
import_items-handle_all es groups fallback h =
    let ready = handle_all-IsReady es initial (record { checked = tt; has_valid = refl }) in
    (
      ground (
        arith,
        h,
        ready.has_valid,
        length-import_items groups fallback (handle_all es initial).parsed,
      ),
      import_items-canonical groups fallback (handle_all es initial).parsed ready.checked,
    )
