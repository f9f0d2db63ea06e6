-- ===== src/Browse/Filter/Rows/Shown.antt =====
-- Which rows the filters leave.
use ise_endpoint_portal.Prelude.{
  ◌≡◌, refl, sym, ap, ◌∙◌, inl, inr, Bool, true, false, not, ◌||◌, ◌&&◌, List, [], ◌∷◌, Option,
  none, some, if◌then◌else◌, all, filter, Bool-cases, arith,
}
use ise_endpoint_portal.Js.Text.{Text, codes, ◌===◌, includes_text, truthy}
use ise_endpoint_portal.Browse.Filter.{Filters}
use ise_endpoint_portal.Browse.Filter.Rows.{
  Row, Page, row_mac, has_session, is_found, column_filters, is_after, is_before, is_private, when,
  is_decommissioned, from_of, to_of, auth_step, filter_rows,
}

module _ {ℓ} {A : Type ℓ} where
  pub filter-filter :
      (p q : A → Bool) (xs : List A) → filter q (filter p xs) ≡ filter (λ x. p x && q x) xs
  filter-filter p q [] = refl
  filter-filter p q (x ∷ xs) = elim (Bool-cases (p x)) [
    | inr e ↦ rw e (filter-filter p q xs)
    | inl e ↦ rw e (ap (λ ys. if q x then x ∷ ys else ys) (filter-filter p q xs))
  ]

  pub filter-same :
      (p q : A → Bool) → ((x : A) → p x ≡ q x) → (xs : List A) → filter p xs ≡ filter q xs
  filter-same p q h [] = refl
  filter-same p q h (x ∷ xs) =
      rw (h x) (ap (λ ys. if q x then x ∷ ys else ys) (filter-same p q h xs))

  pub filter-all : (p : A → Bool) → ((x : A) → p x ≡ true) → (xs : List A) → filter p xs ≡ xs
  filter-all p h [] = refl
  filter-all p h (x ∷ xs) = rw (h x) (ap (◌∷◌ x) (filter-all p h xs))

when-filter :
    (c : Bool) (p q : Row → Bool) (rows : List Row)
    → when c q (filter p rows) ≡ filter (λ r. p r && (not c || q r)) rows
when-filter true p q rows = filter-filter p q rows
when-filter false p q rows = filter-same p (λ r. p r && true) (λ r. ground arith) rows

when-first :
    (c : Bool) (q : Row → Bool) (rows : List Row) → when c q rows ≡ filter (λ r. not c || q r) rows
when-first true q rows = refl
when-first false q rows = sym (filter-all (λ r. true) (λ r. refl) rows)

abbrev portal_ok : Filters → Row → Bool
portal_ok f r = not f.portal_only || r.hypervision === codes "true"

-- a row's decommissioning against the two filters on it
abbrev decomm_ok : Filters → Row → Bool
decomm_ok f r =
    if f.decomm_only
    then is_decommissioned r
    else not f.hide_decommissioned || not (is_decommissioned r)

-- a row's session against the filter on it, if the sessions are known
abbrev auth_ok : Page → Filters → Row → Bool
auth_ok page f r = f.auth_status === codes "all" || elim page.session_macs [
  | none ↦ true
  | some macs ↦
      if f.auth_status === codes "auth" then has_session macs r else not (has_session macs r)
]

abbrev first_seen_ok : Page → Filters → Row → Bool
first_seen_ok page f r =
    is_after page (from_of f) r.first_seen_at && is_before page (to_of f) r.first_seen_at

-- A row that every filter that is set lets through.
unfoldable pub is_shown : Page → Filters → Row → Bool
is_shown page f r =
    portal_ok f r
    && decomm_ok f r
    && (not (truthy f.active_status) || r.active_status === f.active_status)
    && (not (truthy f.full_text_q) || is_found page f.full_text_q r)
    && all (λ test. test r) (column_filters page f.inputs)
    && auth_ok page f r
    && first_seen_ok page f r
    && (not f.mac_private || is_private r)
    && (not f.marked_only || includes_text page.marked (row_mac r))

decomm-filter :
    (f : Filters) (p : Row → Bool) (rows : List Row)
    → (if f.decomm_only
        then filter is_decommissioned (filter p rows)
        else when f.hide_decommissioned (λ r. not (is_decommissioned r)) (filter p rows))
      ≡ filter (λ r. p r && decomm_ok f r) rows
decomm-filter f p rows = elim (Bool-cases f.decomm_only) [
  | inl e ↦ rw e (filter-filter p is_decommissioned rows)
  | inr e ↦ rw e (when-filter f.hide_decommissioned p (λ r. not (is_decommissioned r)) rows)
]

auth-filter :
    (page : Page) (f : Filters) (p : Row → Bool) (rows : List Row)
    → (if f.auth_status === codes "all" then filter p rows else auth_step page f (filter p rows))
      ≡ filter (λ r. p r && auth_ok page f r) rows
auth-filter page f p rows = elim (Bool-cases (f.auth_status === codes "all")) [
  | inl e ↦ rw e (filter-same p (λ r. p r && true) (λ r. ground arith) rows)
  | inr e ↦ rw e (known page.session_macs)
]
  where
    known :
        (macs : Option (List Text))
        → elim macs [
          | none ↦ filter p rows
          | some ms ↦
              filter
                (λ r.
                  if f.auth_status === codes "auth"
                  then has_session ms r
                  else not (has_session ms r))
                (filter p rows)
        ]
          ≡ filter
              (λ r.
                p r
                && (false || elim macs [
                  | none ↦ true
                  | some ms ↦
                      if f.auth_status === codes "auth"
                      then has_session ms r
                      else not (has_session ms r)
                ]))
              rows
    known none = filter-same p (λ r. p r && true) (λ r. ground arith) rows
    known (some ms) =
        filter-filter p
          (λ r. if f.auth_status === codes "auth" then has_session ms r else not (has_session ms r))
          rows

-- without a first and a last time every row is in time
first_seen-filter :
    (page : Page) (f : Filters) (p : Row → Bool) (rows : List Row)
    → when (truthy (from_of f) || truthy (to_of f)) (first_seen_ok page f) (filter p rows)
      ≡ filter (λ r. p r && first_seen_ok page f r) rows
first_seen-filter page f p rows = by_times (from_of f) (to_of f)
  where
    by_times :
        (from to : Text)
        → when
            (truthy from || truthy to)
            (λ r. is_after page from r.first_seen_at && is_before page to r.first_seen_at)
            (filter p rows)
          ≡ filter
              (λ r.
                p r && (is_after page from r.first_seen_at && is_before page to r.first_seen_at))
              rows
    by_times [] [] = filter-same p (λ r. p r && true) (λ r. ground arith) rows
    by_times [] (d ∷ to) = filter-filter p _ rows
    by_times (c ∷ from) to = filter-filter p _ rows

-- Before the sorting, the rows that are left are, in their order, those that every filter lets through.
pub filter_rows-is_shown :
    (page : Page) (f : Filters) (rows : List Row)
    → filter_rows page f rows ≡ filter (is_shown page f) rows
unfolding filter_rows is_shown
filter_rows-is_shown page f rows =
    let e1 = when-first f.portal_only (λ r. r.hypervision === codes "true") rows in
    let e2 =
      ap
        (λ xs.
          if f.decomm_only
          then filter is_decommissioned xs
          else when f.hide_decommissioned (λ r. not (is_decommissioned r)) xs)
        e1
      ∙ decomm-filter f (portal_ok f) rows in
    let e3 =
      ap (when (truthy f.active_status) (λ r. r.active_status === f.active_status)) e2
      ∙ when-filter (truthy f.active_status) _ _ rows in
    let e4 =
      ap (when (truthy f.full_text_q) (is_found page f.full_text_q)) e3
      ∙ when-filter (truthy f.full_text_q) _ _ rows in
    let e5 =
      ap (filter (λ r. all (λ test. test r) (column_filters page f.inputs))) e4
      ∙ filter-filter _ _ rows in
    let e6 =
      ap (λ xs. if f.auth_status === codes "all" then xs else auth_step page f xs) e5
      ∙ auth-filter page f _ rows in
    let e7 =
      ap (when (truthy (from_of f) || truthy (to_of f)) (first_seen_ok page f)) e6
      ∙ first_seen-filter page f _ rows in
    let e8 = ap (when f.mac_private is_private) e7 ∙ when-filter f.mac_private _ _ rows in
    ap (when f.marked_only (λ r. includes_text page.marked (row_mac r))) e8
    ∙ when-filter f.marked_only _ _ rows
