-- ===== src/Examples/PushRuns.antt =====
-- Runs of the command queue and of the push of a configuration.
use webui_hub.Prelude.{◌≡◌, refl, ◌∙◌, false, some, [], ◌∷◌, ◌+◌, arith}
use webui_hub.Json.{get, truthy}
use webui_hub.Disk.{queue_path}
use webui_hub.Exec.{ok}
use webui_hub.Models.{Command, new_command, hour}
use webui_hub.Store.Spokes.{get_spoke, save_spoke, mark_spoke_config_applied}
use webui_hub.Store.Spokes.Format.{migrate_assigned_site}
use webui_hub.Store.Spokes.Saved.{get_spoke-save_spoke}
use webui_hub.Store.Spokes.Frame.{open_file-save_spoke}
use webui_hub.Store.Queue.{
  load_queue, enqueue_command, get_queued_commands, delivered, load_queue-same,
  load_queue-save_queue_self,
}
use webui_hub.Store.Queue.Delivery.{get_queued-enqueue_command}
use webui_hub.Store.Push.{
  has_push, payload_version, ensure_config_update_command, check_and_fix_config_drift,
}
use webui_hub.Store.Push.Once.{ensure_config_update_once, push_at}
use webui_hub.Store.Push.Converge.{check_and_fix-after_apply}
use webui_hub.Examples.Rows.{user_codec, command_codec}
use webui_hub.Examples.TenantRows.{tenant_codec}
use webui_hub.Examples.SpokeRows.{spoke_format, stroke_instants}
use webui_hub.Examples.Outside.{
  open_fernet, plain_json, blank_digest, open_tokens, salted_passwords,
}
use webui_hub.Examples.Data.{reboot, edge, queue_disk, hub_disk}

queue_loaded : load_queue "acme" "s1" queue_disk ≡ ok (reboot ∷ [])
queue_loaded = load_queue-save_queue_self "acme" "s1" (reboot ∷ []) _

pub queue_kept : load_queue "acme" "s1" hub_disk ≡ ok (reboot ∷ [])
queue_kept =
    load_queue-same "acme" "s1" hub_disk queue_disk
      (open_file-save_spoke (queue_path "acme" "s1") edge queue_disk refl refl)
    ∙ queue_loaded

pub edge_found : get_spoke "acme" "s1" hub_disk ≡ some edge
edge_found = get_spoke-save_spoke edge queue_disk refl (unfold migrate_assigned_site in refl)

pub not_pushed : has_push 2 (reboot ∷ []) ≡ ok false
unfolding has_push payload_version get truthy
not_pushed = refl

get_spoke-save_spoke_example : get_spoke "acme" "s1" (save_spoke edge queue_disk) ≡ some edge
get_spoke-save_spoke_example =
    get_spoke-save_spoke edge queue_disk refl (unfold migrate_assigned_site in refl)

ensure_config_update_once_example :
    (load_queue "acme" "s1" (ensure_config_update_command "p1" 10 "acme" "s1" hub_disk).1
      ≡ ok (reboot ∷ push_at "p1" 10 edge (reboot ∷ []) hub_disk ∷ []))
    × (ensure_config_update_command "p2" 20 "acme" "s1"
          (ensure_config_update_command "p1" 10 "acme" "s1" hub_disk).1
        ≡ (ok tt, (ensure_config_update_command "p1" 10 "acme" "s1" hub_disk).1))
ensure_config_update_once_example =
    ensure_config_update_once "p1" 10 edge (reboot ∷ []) hub_disk edge_found refl
      (unfold migrate_assigned_site in refl) refl refl queue_kept not_pushed "p2" 20

check_and_fix-after_apply_example :
    (check_and_fix_config_drift "acme" "s1" (
      mark_spoke_config_applied 30 "acme" "s1" 2
        (ensure_config_update_command "p1" 10 "acme" "s1" hub_disk).1)).0
    ≡ ok false
check_and_fix-after_apply_example =
    check_and_fix-after_apply "p1" 10 edge (reboot ∷ []) hub_disk edge_found refl
      (unfold migrate_assigned_site in refl) refl refl queue_kept not_pushed 30

abbrev update_key : Command
update_key = new_command "c2" 6 "s1" "acme" "spoke" "rotate_key" [] (6 + hour)

get_queued-enqueue_command_example :
    (get_queued_commands 9 "acme" "s1" (enqueue_command 6 update_key queue_disk).1).0
    ≡ ok (delivered 9 reboot ∷ delivered 9 update_key ∷ [])
get_queued-enqueue_command_example =
    get_queued-enqueue_command 6 9 update_key (reboot ∷ []) queue_disk queue_loaded refl
      (omega arith)
