-- ===== src/Locale/Tests.antt =====
-- Languages that are chosen, stored and resolved.
use ise_endpoint_portal.Prelude.{◌≡◌, ◌≢◌, refl, true, none, some}
use ise_endpoint_portal.Js.Storage.{absent, unreadable, value}
use ise_endpoint_portal.Js.Text.{codes, split_on, to_lower_case}
use ise_endpoint_portal.Locale.{
  Locale, is_language, default_lang, chosen_lang, resolve_locale, init_locale_from_storage,
  set_locale, forbidden,
}
use ise_endpoint_portal.Locale.Laws.{set_locale-init_locale_from_storage}

abbrev english : Locale
english = record { active = codes "en"; stored = absent }

-- What the browser stored for a user is not asked after a login.
resolve_locale_ignores_storage :
    (resolve_locale none
      (some (codes "en"))
      (some (codes "da-DK"))
      (record { active = codes "da"; stored = value (some (codes "da")) })).active
    ≡ codes "en"
unfolding resolve_locale default_lang is_language
resolve_locale_ignores_storage = refl

init_locale_from_storage-browser :
    (init_locale_from_storage none (some (codes "da-DK")) english).active ≡ codes "da"
unfolding init_locale_from_storage default_lang is_language split_on to_lower_case
init_locale_from_storage-browser = refl

danish-is_language : is_language (codes "da") ≡ true
unfolding is_language
danish-is_language = refl

absent-readable : english.stored ≢ unreadable
absent-readable e = cc

set_locale-init_locale_from_storage_example :
    (s' : Locale) × (set_locale (some (codes "da")) forbidden english ≡ some s')
    × (s'.active ≡ codes "da")
    × ((init_locale_from_storage none (some (codes "en")) s').active ≡ codes "da")
    × ((resolve_locale none none
          (some (codes "en"))
          (init_locale_from_storage none (some (codes "en")) s')).active
        ≡ chosen_lang none none (some (codes "en")))
    × ((init_locale_from_storage none (some (codes "en")) (
          resolve_locale none none
            (some (codes "en"))
            (init_locale_from_storage none (some (codes "en")) s'))).active
        ≡ codes "da")
set_locale-init_locale_from_storage_example =
    set_locale-init_locale_from_storage (codes "da") none none (some (codes "en")) english
      danish-is_language absent-readable
