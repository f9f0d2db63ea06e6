-- ===== src/Api/Policy.antt =====
-- frontend/js/api.js: the calls about quarantine, templates, preferences, profiles and policies.
use ise_endpoint_portal.Prelude.{ℕ, List, [], ◌∷◌, ◌++◌}
use ise_endpoint_portal.Js.Text.{Text, codes, join}
use ise_endpoint_portal.Api.{
  Request, post, put, delete, no_body, json, object, raw, text, texts, fetch, send, page_parts,
  all_parts, log_parts, param_parts, name_parts,
}

pub data PolicyCall (J : Type 0) : Type 0 where
  list_anc_policies : PolicyCall J
  anc_status : Text → PolicyCall J
  anc_quarantine : Text → Text → PolicyCall J
  anc_clear : Text → PolicyCall J
  list_templates : PolicyCall J
  get_template : Text → PolicyCall J
  create_template : J → PolicyCall J
  update_template : Text → J → PolicyCall J
  delete_template : Text → PolicyCall J
  get_portal_auth_config : PolicyCall J
  update_portal_auth_config : J → PolicyCall J
  test_tacacs : J → PolicyCall J
  get_my_prefs : PolicyCall J
  update_my_prefs : J → PolicyCall J
  get_portal_locale : PolicyCall J
  update_portal_locale : J → PolicyCall J
  get_operator_profiles : PolicyCall J
  create_operator_profile : J → PolicyCall J
  update_operator_profile : Text → J → PolicyCall J
  delete_operator_profile : Text → PolicyCall J
  list_authz_profiles : PolicyCall J
  get_authz_profile : Text → PolicyCall J
  check_standard_authz_profiles : PolicyCall J
  ensure_standard_authz_profiles : PolicyCall J
  list_policy_sets : PolicyCall J
  get_policy_set : Text → PolicyCall J
  list_policy_rules : Text → PolicyCall J
  create_policy_rule : Text → J → PolicyCall J
  update_policy_rule : Text → Text → J → PolicyCall J
  delete_policy_rule : Text → Text → PolicyCall J
  match_policy_endpoint : Text → J → PolicyCall J
  simulate_policy_auto : J → PolicyCall J
  batch_simulate : Text → List Text → J → PolicyCall J

module _ {J : Type 0} (encode : Text → Text) (show : ℕ → Text) where
  unfoldable pub policy_request : PolicyCall J → Request J
  unfolding page_parts all_parts log_parts param_parts name_parts join
  policy_request list_anc_policies = fetch (codes "/endpoints/anc-policies")
  policy_request (anc_status id) = fetch (codes "/endpoints/" ++ (encode id ++ codes "/anc-status"))
  policy_request (anc_quarantine id policy_name) =
      send post (codes "/endpoints/" ++ (encode id ++ codes "/anc-quarantine"))
        (object ((codes "policy_name", text policy_name) ∷ []))
  policy_request (anc_clear id) =
      send post (codes "/endpoints/" ++ (encode id ++ codes "/anc-clear")) no_body
  policy_request list_templates = fetch (codes "/templates")
  policy_request (get_template id) = fetch (codes "/templates/" ++ encode id)
  policy_request (create_template payload) = send post (codes "/templates") (json payload)
  policy_request (update_template id payload) =
      send put (codes "/templates/" ++ encode id) (json payload)
  policy_request (delete_template id) = send delete (codes "/templates/" ++ encode id) no_body
  policy_request get_portal_auth_config = fetch (codes "/settings/auth-config")
  policy_request (update_portal_auth_config payload) =
      send put (codes "/settings/auth-config") (json payload)
  policy_request (test_tacacs payload) =
      send post (codes "/settings/auth-config/test") (json payload)
  policy_request get_my_prefs = fetch (codes "/me/prefs")
  policy_request (update_my_prefs payload) = send put (codes "/me/prefs") (json payload)
  policy_request get_portal_locale = fetch (codes "/settings/locale")
  policy_request (update_portal_locale payload) = send put (codes "/settings/locale") (json payload)
  policy_request get_operator_profiles = fetch (codes "/operator-profiles")
  policy_request (create_operator_profile payload) =
      send post (codes "/operator-profiles") (json payload)
  policy_request (update_operator_profile id payload) =
      send put (codes "/operator-profiles/" ++ encode id) (json payload)
  policy_request (delete_operator_profile id) =
      send delete (codes "/operator-profiles/" ++ encode id) no_body
  policy_request list_authz_profiles = fetch (codes "/authz-profiles")
  policy_request (get_authz_profile name) = fetch (codes "/authz-profiles/" ++ encode name)
  policy_request check_standard_authz_profiles = fetch (codes "/authz-profiles/standard/status")
  policy_request ensure_standard_authz_profiles =
      send post (codes "/authz-profiles/standard/ensure") no_body
  policy_request list_policy_sets = fetch (codes "/policy/policy-sets")
  policy_request (get_policy_set id) = fetch (codes "/policy/policy-sets/" ++ encode id)
  policy_request (list_policy_rules set_id) =
      fetch (codes "/policy/policy-sets/" ++ (encode set_id ++ codes "/rules"))
  policy_request (create_policy_rule set_id payload) =
      send post (codes "/policy/policy-sets/" ++ (encode set_id ++ codes "/rules")) (json payload)
  policy_request (update_policy_rule set_id rule_id payload) =
      send put
        (codes "/policy/policy-sets/" ++ (encode set_id ++ (codes "/rules/" ++ encode rule_id)))
        (json payload)
  policy_request (delete_policy_rule set_id rule_id) =
      send delete
        (codes "/policy/policy-sets/" ++ (encode set_id ++ (codes "/rules/" ++ encode rule_id)))
        no_body
  policy_request (match_policy_endpoint set_id ep_attrs) =
      send post (codes "/policy/policy-sets/" ++ (encode set_id ++ codes "/match")) (json ep_attrs)
  policy_request (simulate_policy_auto ep_attrs) =
      send post (codes "/policy/simulate-auto") (json ep_attrs)
  policy_request (batch_simulate policy_set_id endpoint_ids radius_attrs) =
      send post (codes "/policy/batch-simulate") (
        object (
          (codes "policy_set_id", text policy_set_id)
          ∷ (codes "endpoint_ids", texts endpoint_ids)
          ∷ (codes "radius_attrs", raw radius_attrs)
          ∷ []))
