-- ===== src/Api/Portal.antt =====
-- frontend/js/api.js: the calls about logins, the cache, pxGrid and saved views.
use ise_endpoint_portal.Prelude.{ℕ, [], ◌∷◌, ◌++◌}
use ise_endpoint_portal.Js.Text.{Text, codes, join}
use ise_endpoint_portal.Api.{
  Request, post, put, delete, no_body, json, object, text, fetch, send, page_parts, all_parts,
  log_parts, param_parts, name_parts,
}

pub data PortalCall (J : Type 0) : Type 0 where
  auth_status : PortalCall J
  login : Text → Text → PortalCall J
  logout : PortalCall J
  refresh_token : PortalCall J
  github_check : PortalCall J
  github_pull : PortalCall J
  setup_admin : Text → Text → PortalCall J
  change_password : Text → Text → PortalCall J
  get_cache_stats : PortalCall J
  invalidate_cache : PortalCall J
  rescan_cache : PortalCall J
  get_pxgrid_settings : PortalCall J
  update_pxgrid_settings : J → PortalCall J
  get_pxgrid_status : PortalCall J
  get_pxgrid_worker_status : PortalCall J
  test_pxgrid_connection : PortalCall J
  create_pxgrid_account : PortalCall J
  generate_pxgrid_csr : PortalCall J
  reset_pxgrid_registration : PortalCall J
  run_pxgrid_stomp_probe : ℕ → PortalCall J
  list_my_views : PortalCall J
  create_my_view : Text → Text → PortalCall J
  update_my_view : Text → J → PortalCall J
  delete_my_view : Text → PortalCall J
  get_pxgrid_sessions : PortalCall J
  get_pxgrid_session : Text → PortalCall J
  debug_pxgrid_session : Text → PortalCall J
  probe_mnt_session : Text → PortalCall J
  get_anomalies : PortalCall J
  restart_pxgrid_worker : PortalCall J

module _ {J : Type 0} (encode : Text → Text) (show : ℕ → Text) where
  unfoldable pub portal_request : PortalCall J → Request J
  unfolding page_parts all_parts log_parts param_parts name_parts join
  portal_request auth_status = fetch (codes "/auth/status")
  portal_request (login username password) =
      send post (codes "/auth/login")
        (object ((codes "username", text username) ∷ (codes "password", text password) ∷ []))
  portal_request logout = send post (codes "/auth/logout") no_body
  portal_request refresh_token = send post (codes "/auth/refresh") no_body
  portal_request github_check = fetch (codes "/update/github-check")
  portal_request github_pull = send post (codes "/update/github-pull") no_body
  portal_request (setup_admin username password) =
      send post (codes "/auth/setup")
        (object ((codes "username", text username) ∷ (codes "password", text password) ∷ []))
  portal_request (change_password current_password new_password) =
      send post (codes "/auth/change-password") (
        object (
          (codes "current_password", text current_password)
          ∷ (codes "new_password", text new_password)
          ∷ []))
  portal_request get_cache_stats = fetch (codes "/cache/stats")
  portal_request invalidate_cache = send post (codes "/cache/invalidate") no_body
  portal_request rescan_cache = send post (codes "/cache/rescan") no_body
  portal_request get_pxgrid_settings = fetch (codes "/settings/pxgrid")
  portal_request (update_pxgrid_settings payload) =
      send put (codes "/settings/pxgrid") (json payload)
  portal_request get_pxgrid_status = fetch (codes "/settings/pxgrid/status")
  portal_request get_pxgrid_worker_status = fetch (codes "/pxgrid/worker/status")
  portal_request test_pxgrid_connection = send post (codes "/settings/pxgrid/test") no_body
  portal_request create_pxgrid_account = send post (codes "/settings/pxgrid/account") no_body
  portal_request generate_pxgrid_csr = send post (codes "/settings/pxgrid/csr") no_body
  portal_request reset_pxgrid_registration = send post (codes "/settings/pxgrid/reset") no_body
  portal_request (run_pxgrid_stomp_probe duration) =
      send post (codes "/settings/pxgrid/stomp-probe?duration=" ++ show duration) no_body
  portal_request list_my_views = fetch (codes "/me/views")
  portal_request (create_my_view name query) =
      send post (codes "/me/views")
        (object ((codes "name", text name) ∷ (codes "query", text query) ∷ []))
  portal_request (update_my_view id payload) =
      send put (codes "/me/views/" ++ encode id) (json payload)
  portal_request (delete_my_view id) = send delete (codes "/me/views/" ++ encode id) no_body
  portal_request get_pxgrid_sessions = fetch (codes "/pxgrid/sessions")
  portal_request (get_pxgrid_session mac) = fetch (codes "/pxgrid/sessions/" ++ encode mac)
  portal_request (debug_pxgrid_session mac) =
      fetch (codes "/pxgrid/sessions/" ++ (encode mac ++ codes "/debug"))
  portal_request (probe_mnt_session mac) = fetch (codes "/pxgrid/probe/mnt/" ++ encode mac)
  portal_request get_anomalies = fetch (codes "/pxgrid/anomalies")
  portal_request restart_pxgrid_worker = send post (codes "/pxgrid/worker/restart") no_body
