-- ===== src/Examples/DiagRuns.antt =====
-- Runs of the diagnosis of a spoke.
use webui_hub.Prelude.{◌≡◌, refl, false, some, [], ◌∷◌, elem, ◌∙◌}
use webui_hub.Json.{str, get, obj, field, end}
use webui_hub.Disk.{queue_path, path_eq}
use webui_hub.Exec.{ok}
use webui_hub.Store.Tenants.{get_tenant, restore_missing}
use webui_hub.Store.Queue.{load_queue, load_queue-same}
use webui_hub.Store.Tenants.Purge.{open_file-restore_missing}
use webui_hub.Store.Push.{check_and_fix_config_drift}
use webui_hub.Store.Push.Diag.{
  SpokeConfigDiag, get_spoke_config_diag, safe_payload, get-safe_payload, ShownAs, secret_keys,
  pending_configs, diag_of,
}
use webui_hub.Store.Push.Diag.Drift.{check_and_fix-get_spoke_config_diag}
use webui_hub.Store.Payload.Whole.{build_spoke_config_payload}
use webui_hub.Store.Usb.{get_global_usb_vidpids}
use webui_hub.Examples.PushRuns.{queue_kept, edge_found}
use webui_hub.Examples.Rows.{command_codec}
use webui_hub.Examples.TenantRows.{tenant_codec}
use webui_hub.Examples.SpokeRows.{spoke_format, stroke_instants}
use webui_hub.Examples.Outside.{open_fernet, plain_json, blank_digest}
use webui_hub.Examples.Data.{edge, hub_disk, reboot}

-- The secret of the object is hidden, and its host is shown.
get-safe_payload_example :
    ShownAs
      (elem "proxmox" secret_keys)
      (some (obj (field "host" (str "h") (field "access_token" (str "t") end))))
      (get "proxmox" (
        safe_payload
          (("proxmox", obj (field "host" (str "h") (field "access_token" (str "t") end))) ∷ [])))
unfolding get
get-safe_payload_example =
    get-safe_payload "proxmox"
      (("proxmox", obj (field "host" (str "h") (field "access_token" (str "t") end))) ∷ [])

abbrev edge_diag : SpokeConfigDiag
edge_diag =
    diag_of edge (get_tenant "acme" (restore_missing hub_disk))
      (build_spoke_config_payload (get_tenant "acme" (restore_missing hub_disk))
        (restore_missing hub_disk))
      (get_global_usb_vidpids (restore_missing hub_disk)) []

queue_restored : load_queue "acme" "s1" (restore_missing hub_disk) ≡ ok (reboot ∷ [])
queue_restored =
    load_queue-same "acme" "s1" (restore_missing hub_disk) hub_disk
      (open_file-restore_missing (queue_path "acme" "s1") hub_disk (unfold path_eq in refl))
    ∙ queue_kept

edge_diagnosed : get_spoke_config_diag 8 "acme" "s1" hub_disk ≡ ok (some edge_diag)
unfolding get_spoke_config_diag pending_configs
edge_diagnosed = rw edge_found (rw queue_restored)

check_and_fix-get_spoke_config_diag_example :
    (check_and_fix_config_drift "acme" "s1" hub_disk).0 ≡ ok false
check_and_fix-get_spoke_config_diag_example =
    check_and_fix-get_spoke_config_diag 8 "acme" "s1" edge edge_diag hub_disk edge_found
      edge_diagnosed
