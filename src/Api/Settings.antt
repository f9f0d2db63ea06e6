-- ===== src/Api/Settings.antt =====
-- frontend/js/api.js: the calls about the backend, custom attributes, dACLs and logs.
use ise_endpoint_portal.Prelude.{ℕ, Bool, [], ◌∷◌, ◌++◌, Option, none, some, if◌then◌else◌}
use ise_endpoint_portal.Js.Text.{Text, codes, join}
use ise_endpoint_portal.Api.{
  Request, post, put, delete, no_body, json, object, raw, text, fetch, send, page_parts, all_parts,
  log_parts, param_parts, name_parts,
}

pub data SettingCall (J : Type 0) : Type 0 where
  get_backend_settings : SettingCall J
  update_backend_settings : J → SettingCall J
  test_backend_connection : Option J → SettingCall J
  list_custom_attributes : SettingCall J
  add_custom_attribute_value : Text → Text → SettingCall J
  remove_custom_attribute_value : Text → Text → SettingCall J
  ensure_custom_attr_definitions : SettingCall J
  sync_custom_attributes : SettingCall J
  sync_platform_from_mnt : Bool → SettingCall J
  get_platform_mapping : SettingCall J
  set_platform_mapping : J → SettingCall J
  get_nas_devices_by_platform : SettingCall J
  refresh_nas_devices : SettingCall J
  list_dacls : SettingCall J
  get_dacl : Text → SettingCall J
  create_dacl : J → SettingCall J
  update_dacl : Text → J → SettingCall J
  delete_dacl : Text → SettingCall J
  validate_dacl : Text → Text → SettingCall J
  get_logs : ℕ → Text → Text → SettingCall J
  get_logs_summary : SettingCall J

module _ {J : Type 0} (encode : Text → Text) (show : ℕ → Text) where
  unfoldable pub setting_request : SettingCall J → Request J
  unfolding page_parts all_parts log_parts param_parts name_parts join
  setting_request get_backend_settings = fetch (codes "/settings/backend")
  setting_request (update_backend_settings payload) =
      send put (codes "/settings/backend") (json payload)
  setting_request (test_backend_connection payload) =
      send post (codes "/settings/test") (elim payload [ none ↦ object [] | some p ↦ json p ])
  setting_request list_custom_attributes = fetch (codes "/custom-attributes")
  setting_request (add_custom_attribute_value name value) =
      send post (codes "/custom-attributes/" ++ (encode name ++ codes "/values"))
        (object ((codes "value", text value) ∷ []))
  setting_request (remove_custom_attribute_value name value) =
      send delete
        (codes "/custom-attributes/" ++ (encode name ++ (codes "/values/" ++ encode value))) no_body
  setting_request ensure_custom_attr_definitions =
      send post (codes "/custom-attributes/ensure-definitions") no_body
  setting_request sync_custom_attributes = send post (codes "/custom-attributes/sync") no_body
  setting_request (sync_platform_from_mnt overwrite) =
      send post
        (codes "/custom-attributes/PlatformType/sync-mnt"
          ++ (if overwrite then codes "?overwrite=true" else []))
        no_body
  setting_request get_platform_mapping = fetch (codes "/custom-attributes/PlatformType/mapping")
  setting_request (set_platform_mapping mappings) =
      send put (codes "/custom-attributes/PlatformType/mapping")
        (object ((codes "mappings", raw mappings) ∷ []))
  setting_request get_nas_devices_by_platform =
      fetch (codes "/custom-attributes/PlatformType/nas-devices")
  setting_request refresh_nas_devices =
      send post (codes "/custom-attributes/PlatformType/nas-devices/refresh") no_body
  setting_request list_dacls = fetch (codes "/dacls")
  setting_request (get_dacl id) = fetch (codes "/dacls/" ++ encode id)
  setting_request (create_dacl payload) = send post (codes "/dacls") (json payload)
  setting_request (update_dacl id payload) = send put (codes "/dacls/" ++ encode id) (json payload)
  setting_request (delete_dacl id) = send delete (codes "/dacls/" ++ encode id) no_body
  setting_request (validate_dacl dacl dacl_type) =
      send post (codes "/dacls/validate")
        (object ((codes "dacl", text dacl) ∷ (codes "dacl_type", text dacl_type) ∷ []))
  setting_request (get_logs lines level search) =
      fetch (codes "/logs?" ++ join (codes "&") (log_parts encode show lines level search))
  setting_request get_logs_summary = fetch (codes "/logs/summary")
