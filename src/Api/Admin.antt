-- ===== src/Api/Admin.antt =====
-- frontend/js/api.js: the calls about vendors, audit, users, keys, updates and diagnostics.
use ise_endpoint_portal.Prelude.{ℕ, true, List, [], ◌∷◌, ◌++◌, Option, none, some}
use ise_endpoint_portal.Js.Dict.{Dict}
use ise_endpoint_portal.Js.Text.{Text, codes, join}
use ise_endpoint_portal.Api.{
  Request, post, put, delete, no_body, json, object, form, raw, texts, fetch, send, page_parts,
  all_parts, log_parts, param_parts, name_parts, query_string,
}

pub data AdminCall (J : Type 0) : Type 0 where
  lookup_oui : Text → AdminCall J
  get_oui_stats : AdminCall J
  list_audit_events : Dict (Option Text) → AdminCall J
  get_audit_event : Text → AdminCall J
  rollback_audit_event : Text → AdminCall J
  list_users : AdminCall J
  create_user : J → AdminCall J
  update_user : Text → J → AdminCall J
  delete_user : Text → AdminCall J
  set_user_endpoint_roles : Text → List Text → AdminCall J
  set_user_templates : Text → List Text → AdminCall J
  list_endpoint_roles : AdminCall J
  create_endpoint_role : J → AdminCall J
  delete_endpoint_role : Text → AdminCall J
  auth_me : AdminCall J
  get_psk_policy : AdminCall J
  update_psk_policy : J → AdminCall J
  generate_psk_key : Option J → AdminCall J
  validate_update : J → AdminCall J
  apply_update : J → AdminCall J
  restart_server : AdminCall J
  diagnostics : AdminCall J
  diagnostics_quick : AdminCall J
  selfregister_mnt_probe : AdminCall J
  feature_check_phase1 : AdminCall J
  feature_check_phase2 : AdminCall J
  sysinfo : AdminCall J

module _ {J : Type 0} (encode : Text → Text) (show : ℕ → Text) where
  unfoldable pub admin_request : AdminCall J → Request J
  unfolding page_parts all_parts log_parts param_parts name_parts join
  admin_request (lookup_oui mac) = fetch (codes "/oui/" ++ encode mac)
  admin_request get_oui_stats = fetch (codes "/oui/stats")
  admin_request (list_audit_events params) =
      fetch (codes "/audit" ++ query_string (param_parts encode params))
  admin_request (get_audit_event id) = fetch (codes "/audit/" ++ encode id)
  admin_request (rollback_audit_event id) =
      send post (codes "/audit/" ++ (encode id ++ codes "/rollback")) no_body
  admin_request list_users = fetch (codes "/users")
  admin_request (create_user payload) = send post (codes "/users") (json payload)
  admin_request (update_user id payload) = send put (codes "/users/" ++ encode id) (json payload)
  admin_request (delete_user id) = send delete (codes "/users/" ++ encode id) no_body
  admin_request (set_user_endpoint_roles id roles) =
      send put (codes "/users/" ++ (encode id ++ codes "/endpoint-roles"))
        (object ((codes "roles", texts roles) ∷ []))
  admin_request (set_user_templates id template_ids) =
      send put (codes "/users/" ++ (encode id ++ codes "/templates"))
        (object ((codes "template_ids", texts template_ids) ∷ []))
  admin_request list_endpoint_roles = fetch (codes "/endpoint-roles")
  admin_request (create_endpoint_role payload) = send post (codes "/endpoint-roles") (json payload)
  admin_request (delete_endpoint_role name) =
      send delete (codes "/endpoint-roles/" ++ encode name) no_body
  admin_request auth_me = fetch (codes "/auth/me")
  admin_request get_psk_policy = fetch (codes "/settings/psk-policy")
  admin_request (update_psk_policy payload) = send put (codes "/settings/psk-policy") (json payload)
  admin_request (generate_psk_key policy) =
      send post (codes "/settings/psk-policy/generate")
        (elim policy [ none ↦ no_body | some p ↦ json p ])
  admin_request (validate_update file) =
      record (send post (codes "/update/validate") (form ((codes "file", raw file) ∷ []))) {
        no_content_type = true;
      }
  admin_request (apply_update file) =
      record (send post (codes "/update/apply") (form ((codes "file", raw file) ∷ []))) {
        no_content_type = true;
      }
  admin_request restart_server = send post (codes "/update/restart") no_body
  admin_request diagnostics = record (fetch (codes "/diagnostics")) { timeout = some 30000 }
  admin_request diagnostics_quick = record (fetch (codes "/diagnostics/quick")) {
    timeout = some 10000;
  }
  admin_request selfregister_mnt_probe = record (fetch (codes "/selfregister/mnt-probe")) {
    timeout = some 20000;
  }
  admin_request feature_check_phase1 = record (fetch (codes "/feature-check/phase1")) {
    timeout = some 10000;
  }
  admin_request feature_check_phase2 = record (fetch (codes "/feature-check/phase2")) {
    timeout = some 30000;
  }
  admin_request sysinfo = record (fetch (codes "/sysinfo")) { timeout = some 5000 }
