-- ===== src/Locale/Laws.antt =====
-- The active language is one that exists, and a choice outlives the page.
use ise_endpoint_portal.Prelude.{
  ◌≡◌, ◌≢◌, refl, sym, ap, ◌∙◌, inl, inr, true, false, [], ◌∷◌, Option, none, some, if◌then◌else◌,
  Bool-cases,
}
use ise_endpoint_portal.Js.Storage.{Entry, absent, unreadable, value}
use ise_endpoint_portal.Js.Text.{Text, codes, or_empty}
use ise_endpoint_portal.Locale.{
  Locale, is_language, browser_lang, default_lang, chosen_lang, resolve_locale, stored_lang,
  init_locale_from_storage, forbidden, store_lang, set_locale,
}

english-is_language : is_language (codes "en") ≡ true
unfolding is_language
english-is_language = refl

default_lang-is_language : (portal nav : Option Text) → is_language (default_lang portal nav) ≡ true
unfolding default_lang
default_lang-is_language portal nav = elim (Bool-cases (is_language (or_empty portal))) [
  | inl e ↦ rw e e
  | inr e ↦ elim (Bool-cases (is_language (browser_lang nav))) [
    | inl f ↦ rw (e, f) f
    | inr f ↦ rw (e, f) english-is_language
  ]
]

not-is_language-nil : is_language [] ≡ false
unfolding is_language
not-is_language-nil = refl

-- a language that is there exists
abbrev IsKnown : Option Text → Type 0
IsKnown none = Unit
IsKnown (some lang) = is_language lang ≡ true

if-IsKnown : (lang : Text) → IsKnown (if is_language lang then some lang else none)
if-IsKnown lang = elim (Bool-cases (is_language lang)) [ inl e ↦ rw e e | inr e ↦ rw e tt ]

stored_lang-IsKnown : (e : Entry (Option Text)) → IsKnown (stored_lang e)
stored_lang-IsKnown absent = tt
stored_lang-IsKnown unreadable = tt
stored_lang-IsKnown (value none) = tt
stored_lang-IsKnown (value (some lang)) = if-IsKnown lang

-- the page is loaded
init-is_language :
    (portal nav : Option Text) (s : Locale)
    → is_language (init_locale_from_storage portal nav s).active ≡ true
unfolding init_locale_from_storage
init-is_language portal nav s = by_stored (stored_lang s.stored) (stored_lang-IsKnown s.stored)
  where
    by_stored :
        (o : Option Text)
        → IsKnown o
        → is_language
            (elim o as (λ x. Locale) [
              | some lang ↦ record s { active = lang }
              | none ↦ record s { active = default_lang portal nav }
            ]).active
          ≡ true
    by_stored none h = default_lang-is_language portal nav
    by_stored (some lang) h = h

some-not_none : (lang : Text) → some lang ≢ none
some-not_none lang e = cc

chosen_lang-is_language :
    (prefs portal nav : Option Text)
    → (prefs ≢ none → is_language (or_empty prefs) ≡ true)
    → is_language (chosen_lang prefs portal nav) ≡ true
chosen_lang-is_language none portal nav h = default_lang-is_language portal nav
chosen_lang-is_language (some []) portal nav h = default_lang-is_language portal nav
chosen_lang-is_language (some (c ∷ lang)) portal nav h = h (some-not_none (c ∷ lang))

-- The language that is set when the page loads exists, whatever is stored, and whatever the portal
-- and the browser name, and so does the one that is set after a login, provided that the one that
-- the server keeps for the user exists or is missing.
locale-is_language :
    (prefs portal nav : Option Text) (s : Locale)
    → (prefs ≢ none → is_language (or_empty prefs) ≡ true)
    → (is_language (init_locale_from_storage portal nav s).active ≡ true)
      × (is_language (resolve_locale prefs portal nav s).active ≡ true)
unfolding resolve_locale
locale-is_language prefs portal nav s h =
    (init-is_language portal nav s, chosen_lang-is_language prefs portal nav h)

stored_lang-store_lang :
    (lang : Text) (e : Entry (Option Text))
    → is_language lang ≡ true
    → e ≢ unreadable
    → stored_lang (store_lang (some lang) e) ≡ some lang
stored_lang-store_lang [] e h k = absurd (not_both (sym h ∙ not-is_language-nil))
  where
    not_both : true ≡ false → ⊥
    not_both e = cc
stored_lang-store_lang (c ∷ lang) absent h k = rw h
stored_lang-store_lang (c ∷ lang) unreadable h k = absurd (k refl)
stored_lang-store_lang (c ∷ lang) (value old) h k = rw h

set_locale-forbidden :
    (lang : Text) (s : Locale)
    → is_language lang ≡ true
    → set_locale (some lang) forbidden s
      ≡ some (record { active = lang; stored = store_lang (some lang) s.stored })
unfolding set_locale
set_locale-forbidden lang s h = rw h

init-stored :
    (lang : Text) (portal nav : Option Text) (s : Locale)
    → stored_lang s.stored ≡ some lang
    → (init_locale_from_storage portal nav s).active ≡ lang
unfolding init_locale_from_storage
init-stored lang portal nav s h = rw (h, init_locale_from_storage)

-- loading writes nothing
stored-kept :
    (prefs portal nav : Option Text) (s : Locale)
    → (resolve_locale prefs portal nav (init_locale_from_storage portal nav s)).stored ≡ s.stored
unfolding resolve_locale init_locale_from_storage
stored-kept prefs portal nav s =
    elim (stored_lang s.stored)
      as (λ o.
        (elim o as (λ x. Locale) [
          | some lang ↦ record s { active = lang }
          | none ↦ record s { active = default_lang portal nav }
        ]).stored
        ≡ s.stored) [ none ↦ refl | some lang ↦ refl ]

-- Where the server refuses to keep the language that a user chooses, and what is stored can be read, the
-- language is active, and initLocaleFromStorage makes it active again on a later load, whatever the portal
-- and the browser name then; resolveLocale, which boot calls for a user behind that, replaces it by the
-- one that the server has for the user, or else by the portal's or the browser's, and leaves what is
-- stored, so that the load after that one begins with the chosen language again.
pub set_locale-init_locale_from_storage :
    (lang : Text) (prefs portal nav : Option Text) (s : Locale)
    → is_language lang ≡ true
    → s.stored ≢ unreadable
    → (s' : Locale) × (set_locale (some lang) forbidden s ≡ some s')
      × (s'.active ≡ lang)
      × ((init_locale_from_storage portal nav s').active ≡ lang)
      × ((resolve_locale prefs portal nav (init_locale_from_storage portal nav s')).active
          ≡ chosen_lang prefs portal nav)
      × ((init_locale_from_storage portal nav
            (resolve_locale prefs portal nav (init_locale_from_storage portal nav s'))).active
          ≡ lang)
set_locale-init_locale_from_storage lang prefs portal nav s h k =
    let s' : Locale = record { active = lang; stored = store_lang (some lang) s.stored } in
    let kept = stored_lang-store_lang lang s.stored h k in
    (
      s',
      set_locale-forbidden lang s h,
      refl,
      init-stored lang portal nav s' kept,
      unfold resolve_locale in refl,
      init-stored lang portal nav
          (resolve_locale prefs portal nav (init_locale_from_storage portal nav s'))
          (ap stored_lang (stored-kept prefs portal nav s') ∙ kept),
    )
