-- ===== src/Locale.antt =====
-- frontend/js/i18n.js: which language is active, and where the choice of a user is kept. What
-- localStorage holds under `ise_portal_prefs` is represented by its `language`.
pub mod Laws
mod Tests
use ise_endpoint_portal.Prelude.{
  Bool, true, false, ◌||◌, ◌&&◌, List, [], ◌∷◌, Option, none, some, if◌then◌else◌, get_elem?,
}
use ise_endpoint_portal.Js.Storage.{Entry, absent, unreadable, value}
use ise_endpoint_portal.Js.Text.{
  Text, codes, ◌===◌, includes_text, truthy, or_empty, to_lower_case, split_on,
}

-- the keys of `TRANSLATIONS`
abbrev pub languages : List Text
languages = codes "da" ∷ codes "en" ∷ []

-- `lang && TRANSLATIONS[lang]`
unfoldable pub is_language : Text → Bool
unfolding includes_text ◌===◌
is_language lang = includes_text languages lang

-- the active language, and the stored preference
pub record Locale : Type 0 where
  pub active : Text
  pub stored : Entry (Option Text)

-- `(navigator.language || "").toLowerCase().split("-")[0]`
abbrev pub browser_lang : Option Text → Text
browser_lang nav = or_empty (get_elem? (split_on b'-' (to_lower_case (or_empty nav))) 0)

-- the language of the portal, or else of the browser, or else English
unfoldable pub default_lang : Option Text → Option Text → Text
unfolding is_language split_on to_lower_case
default_lang portal nav =
    if is_language (or_empty portal)
    then or_empty portal
    else if is_language (browser_lang nav)
    then browser_lang nav
    else codes "en"

-- the language of the preferences that the server sends; an error sends none
abbrev pub chosen_lang : Option Text → Option Text → Option Text → Text
chosen_lang none portal nav = default_lang portal nav
chosen_lang (some []) portal nav = default_lang portal nav
chosen_lang (some (c ∷ lang)) portal nav = c ∷ lang

-- `resolveLocale`
unfoldable pub resolve_locale : Option Text → Option Text → Option Text → Locale → Locale
unfolding default_lang
resolve_locale prefs portal nav s = record s { active = chosen_lang prefs portal nav }

-- the stored preference, if it can be read and names a language
abbrev pub stored_lang : Entry (Option Text) → Option Text
stored_lang absent = none
stored_lang unreadable = none
stored_lang (value none) = none
stored_lang (value (some lang)) = if is_language lang then some lang else none

-- `initLocaleFromStorage`
unfoldable pub init_locale_from_storage : Option Text → Option Text → Locale → Locale
unfolding default_lang
init_locale_from_storage portal nav s = elim (stored_lang s.stored) [
  | some lang ↦ record s { active = lang }
  | none ↦ record s { active = default_lang portal nav }
]

-- what `apiPutMyPrefs` brings: success, a refusal with 403, or another error
pub data PutReply : Type 0 where
  saved forbidden failed : PutReply

-- `lang || undefined`
abbrev pub or_undefined : Option Text → Option Text
or_undefined none = none
or_undefined (some []) = none
or_undefined (some (c ∷ lang)) = some (c ∷ lang)

-- A stored text that does not parse stays as it is.
abbrev pub store_lang : Option Text → Entry (Option Text) → Entry (Option Text)
store_lang lang absent = value (or_undefined lang)
store_lang lang unreadable = unreadable
store_lang lang (value old) = value (or_undefined lang)

abbrev pub activate : Option Text → Locale → Locale
activate lang s = if is_language (or_empty lang) then record s { active = or_empty lang } else s

-- `setLocale`; `none` is an error that is thrown on, and leaves the page as it is
unfoldable pub set_locale : Option Text → PutReply → Locale → Option Locale
unfolding is_language
set_locale lang saved s = some (activate lang s)
set_locale lang forbidden s = some (activate lang (record s { stored = store_lang lang s.stored }))
set_locale lang failed s = none
