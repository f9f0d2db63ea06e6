-- ===== src/Api/Bulk.antt =====
-- frontend/js/api.js: the calls about history, dashboards, bulk operations and scans.
use ise_endpoint_portal.Prelude.{ℕ, List, [], ◌∷◌, ◌++◌}
use ise_endpoint_portal.Js.Text.{Text, codes, join}
use ise_endpoint_portal.Api.{
  Request, post, no_body, object, raw, text, texts, fetch, send, page_parts, all_parts, log_parts,
  param_parts, name_parts,
}

pub data BulkCall (J : Type 0) : Type 0 where
  get_endpoint_history : Text → ℕ → BulkCall J
  bulk_coa : List Text → Text → BulkCall J
  get_ise_nodes : BulkCall J
  get_ise_connection : BulkCall J
  probe_ise_connection : BulkCall J
  get_stale_endpoints : ℕ → BulkCall J
  get_dashboard : BulkCall J
  get_alerts : BulkCall J
  get_trends : Text → BulkCall J
  decommission_endpoint : Text → BulkCall J
  bulk_decommission : List Text → BulkCall J
  undecommission_endpoint : Text → BulkCall J
  bulk_undecommission : List Text → BulkCall J
  set_active_status : Text → Text → BulkCall J
  bulk_apply_template : List Text → J → BulkCall J
  get_metrics_history : List Text → ℕ → BulkCall J
  nmap_scan : Text → J → J → BulkCall J

module _ {J : Type 0} (encode : Text → Text) (show : ℕ → Text) where
  unfoldable pub bulk_request : BulkCall J → Request J
  unfolding page_parts all_parts log_parts param_parts name_parts join
  bulk_request (get_endpoint_history id limit) =
      fetch (codes "/endpoints/" ++ (encode id ++ (codes "/history?limit=" ++ show limit)))
  bulk_request (bulk_coa endpoint_ids action) =
      send post (codes "/endpoints/bulk-coa")
        (object ((codes "endpoint_ids", texts endpoint_ids) ∷ (codes "action", text action) ∷ []))
  bulk_request get_ise_nodes = fetch (codes "/ise/nodes")
  bulk_request get_ise_connection = fetch (codes "/ise/connection")
  bulk_request probe_ise_connection = send post (codes "/ise/connection/probe") no_body
  bulk_request (get_stale_endpoints days) = fetch (codes "/lifecycle/stale?days=" ++ show days)
  bulk_request get_dashboard = fetch (codes "/dashboard")
  bulk_request get_alerts = fetch (codes "/alerts")
  bulk_request (get_trends period) = fetch (codes "/trends?period=" ++ encode period)
  bulk_request (decommission_endpoint id) =
      send post (codes "/endpoints/" ++ (encode id ++ codes "/decommission")) no_body
  bulk_request (bulk_decommission endpoint_ids) =
      send post (codes "/endpoints/bulk-decommission")
        (object ((codes "endpoint_ids", texts endpoint_ids) ∷ []))
  bulk_request (undecommission_endpoint id) =
      send post (codes "/endpoints/" ++ (encode id ++ codes "/undecommission")) no_body
  bulk_request (bulk_undecommission endpoint_ids) =
      send post (codes "/endpoints/bulk-undecommission")
        (object ((codes "endpoint_ids", texts endpoint_ids) ∷ []))
  bulk_request (set_active_status id active_status) =
      send post (codes "/endpoints/" ++ (encode id ++ codes "/active-status"))
        (object ((codes "active_status", text active_status) ∷ []))
  bulk_request (bulk_apply_template endpoint_ids template_id) =
      send post (codes "/endpoints/bulk-apply-template") (
        object (
          (codes "endpoint_ids", texts endpoint_ids) ∷ (codes "template_id", raw template_id) ∷ []))
  bulk_request (get_metrics_history names limit) = fetch (
      codes "/metrics/history?"
      ++ (join (codes "&") (name_parts encode names) ++ (codes "&limit=" ++ show limit)))
  bulk_request (nmap_scan ip preset custom_flags) = send post (codes "/nmap/scan") (
      object (
        (codes "ip", text ip)
        ∷ (codes "preset", raw preset)
        ∷ (codes "custom_flags", raw custom_flags)
        ∷ []))
