-- ===== src/Examples/TenantRuns.antt =====
-- Runs of the tenants and of their devices.
use webui_hub.Prelude.{
  String, ◌≡◌, refl, false, not, ◌||◌, ◌&&◌, none, some, List, [], ◌∷◌, ◌==◌, ◌*◌, elem,
  if◌then◌else◌,
}
use webui_hub.Json.{Json, Dict, str}
use webui_hub.Disk.{queue_path, open_file, tenants_path, path_eq}
use webui_hub.Models.{day}
use webui_hub.Store.Tenants.{get_tenant, purge_old_deleted_tenants}
use webui_hub.Store.Tenants.Lifecycle.{load_tenants-save_tenants}
use webui_hub.Store.Tenants.Purge.{open_file-purge_old_deleted_tenants, purged}
use webui_hub.Store.Usb.{effective_usb_vidpids_from, tenant_usb_vidpids}
use webui_hub.Store.Usb.Merge.{effective_usb_vidpids_lem, IsDistinct, vidpids}
use webui_hub.Examples.Rows.{user_codec, command_codec}
use webui_hub.Examples.TenantRows.{tenant_codec}
use webui_hub.Examples.SpokeRows.{spoke_format, stroke_instants}
use webui_hub.Examples.Outside.{
  open_fernet, plain_json, blank_digest, open_tokens, salted_passwords,
}
use webui_hub.Examples.Data.{acme, hub_disk, tenant_disk}

acme_found : get_tenant "acme" tenant_disk ≡ some acme
unfolding get_tenant
acme_found = rw load_tenants-save_tenants

queue_elsewhere : path_eq tenants_path (queue_path "acme" "s1") ≡ false
unfolding path_eq
queue_elsewhere = refl

open_file-purge_old_deleted_tenants_example :
    open_file (queue_path "acme" "s1") (purge_old_deleted_tenants (31 * day) 30 hub_disk).1 ≡ (
      if elem "acme" (purged (31 * day) 30 hub_disk)
      then none
      else open_file (queue_path "acme" "s1") hub_disk)
open_file-purge_old_deleted_tenants_example =
    open_file-purge_old_deleted_tenants (31 * day) 30 hub_disk (queue_path "acme" "s1")
      queue_elsewhere

abbrev certified : List (Dict Json)
certified = (("vidpid", str "0bda:8153") ∷ []) ∷ []

effective_usb_vidpids_lem_example :
    IsDistinct (vidpids (effective_usb_vidpids_from certified (some acme)))
    × ((x : String)
        → elem x (vidpids (effective_usb_vidpids_from certified (some acme))) ≡ (
            not (x == "")
            && (elem x (vidpids certified) || elem x (vidpids (tenant_usb_vidpids (some acme))))))
effective_usb_vidpids_lem_example = effective_usb_vidpids_lem certified (some acme)
