-- ===== src/ServiceWorker/Tests.antt =====
-- A concrete worker.
use ise_endpoint_portal.Prelude.{ℕ, ◌≡◌, refl, true, false, [], ◌∷◌, Option, none, some, map}
use ise_endpoint_portal.Js.Text.{Text, codes, ◌===◌, starts_with}
use ise_endpoint_portal.ServiceWorker.{Request, Response, addresses, install, fetch_event}
use ise_endpoint_portal.ServiceWorker.Offline.{
  activates, fetches, handle_all, is_served, fetch_event-served,
}

abbrev page : Response ℕ
page = record { ok = true; content = 7 }

abbrev everywhere : Text → Option (Response ℕ)
everywhere url = some page

abbrev origin : Text
origin = codes "https://portal"

abbrev first_visit : Request
first_visit = record {
  url = codes "https://portal/";
  pathname = codes "/";
  method = codes "GET";
  same_origin = true;
}

first_visit-not_api : starts_with first_visit.pathname (codes "/api/") ≡ false
unfolding starts_with
first_visit-not_api = refl

first_visit-get : (first_visit.method === codes "GET") ≡ true
unfolding ◌===◌
first_visit-get = refl

fetch_event-served_example :
    is_served
      (fetch_event origin first_visit none (
        handle_all origin
          (activates ∷ fetches first_visit (some page) ∷ [])
          (install origin everywhere []))).0
    ≡ true
fetch_event-served_example =
    fetch_event-served origin everywhere [] (map (λ url. (url, page)) (addresses origin))
      (activates ∷ fetches first_visit (some page) ∷ []) first_visit refl first_visit-not_api
      first_visit-get
