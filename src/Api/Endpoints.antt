-- ===== src/Api/Endpoints.antt =====
-- frontend/js/api.js: the calls about endpoints and groups.
use ise_endpoint_portal.Prelude.{ℕ, Bool, true, List, [], ◌∷◌, ◌++◌, if◌then◌else◌}
use ise_endpoint_portal.Js.Text.{Text, codes, join}
use ise_endpoint_portal.Api.{
  Request, post, put, delete, no_body, json, object, raw, flag, fetch, send, page_parts, all_parts,
  log_parts, param_parts, name_parts, query_string,
}

pub data EndpointCall (J : Type 0) : Type 0 where
  health : EndpointCall J
  list_endpoints : ℕ → ℕ → Text → List Text → EndpointCall J
  list_endpoint_details : ℕ → ℕ → Text → List Text → EndpointCall J
  list_all_endpoint_details : Text → List Text → Text → EndpointCall J
  get_endpoint : Text → Bool → EndpointCall J
  get_profiling_data : Text → EndpointCall J
  get_profiler_profile : Text → EndpointCall J
  prioritize_endpoint : Text → EndpointCall J
  list_groups : EndpointCall J
  create_group : J → EndpointCall J
  create_endpoint : J → EndpointCall J
  bulk_create_endpoints : J → Bool → EndpointCall J
  update_endpoint : Text → J → EndpointCall J
  delete_endpoint : Text → EndpointCall J
  list_active_session_macs : EndpointCall J
  get_endpoint_stats : EndpointCall J
  coa_reauth : Text → EndpointCall J
  coa_disconnect : Text → EndpointCall J

module _ {J : Type 0} (encode : Text → Text) (show : ℕ → Text) where
  unfoldable pub endpoint_request : EndpointCall J → Request J
  unfolding page_parts all_parts log_parts param_parts name_parts join
  endpoint_request health = fetch (codes "/health")
  endpoint_request (list_endpoints page size search filters) =
      fetch
        (codes "/endpoints?" ++ join (codes "&") (page_parts encode show page size search filters))
  endpoint_request (list_endpoint_details page size search filters) = fetch (
      codes "/endpoints/details?"
      ++ join (codes "&") (page_parts encode show page size search filters))
  endpoint_request (list_all_endpoint_details search filters q) =
      fetch (codes "/endpoints/details/all" ++ query_string (all_parts encode search filters q))
  endpoint_request (get_endpoint id fresh) =
      record (fetch
        (codes "/endpoints/" ++ (encode id ++ (if fresh then codes "?fresh=true" else [])))) {
          timed = true;
        }
  endpoint_request (get_profiling_data id) =
      fetch (codes "/endpoints/" ++ (encode id ++ codes "/profiling-data"))
  endpoint_request (get_profiler_profile id) =
      fetch (codes "/endpoints/" ++ (encode id ++ codes "/profiler-profile"))
  endpoint_request (prioritize_endpoint id) =
      send post (codes "/endpoints/" ++ (encode id ++ codes "/prioritize")) no_body
  endpoint_request list_groups = fetch (codes "/groups")
  endpoint_request (create_group payload) = send post (codes "/groups") (json payload)
  endpoint_request (create_endpoint payload) = send post (codes "/endpoints") (json payload)
  endpoint_request (bulk_create_endpoints items overwrite) =
      send post (codes "/endpoints/bulk")
        (object ((codes "items", raw items) ∷ (codes "overwrite", flag overwrite) ∷ []))
  endpoint_request (update_endpoint id payload) =
      send put (codes "/endpoints/" ++ id) (json payload)
  endpoint_request (delete_endpoint id) = send delete (codes "/endpoints/" ++ id) no_body
  endpoint_request list_active_session_macs = fetch (codes "/endpoints/session-macs")
  endpoint_request get_endpoint_stats = fetch (codes "/endpoints/stats")
  endpoint_request (coa_reauth id) =
      send post (codes "/endpoints/" ++ (encode id ++ codes "/coa-reauth")) no_body
  endpoint_request (coa_disconnect id) =
      send post (codes "/endpoints/" ++ (encode id ++ codes "/coa-disconnect")) no_body
