-- ===== src/Examples/RouteRuns.antt =====
-- Runs of the inbox route and of the purge of expired commands.
use webui_hub.Prelude.{◌≡◌, refl, [], ◌∷◌, keep, true, false, ◌==◌}
use webui_hub.Disk.{read_rows, queue_path, open_file}
use webui_hub.Exec.{ok}
use webui_hub.Crypto.{decrypt_str}
use webui_hub.Store.Queue.{delivered}
use webui_hub.Store.Queue.Expiry.{purge_expired_commands, purge_expired_commands_lem, is_unexpired}
use webui_hub.Store.Push.Once.{push_at}
use webui_hub.SpokeRoutes.{auth_spoke, get_inbox}
use webui_hub.SpokeRoutes.Inbox.{get_inbox-delivers_push}
use webui_hub.Examples.PushRuns.{queue_kept, edge_found, not_pushed}
use webui_hub.Examples.Rows.{command_codec}
use webui_hub.Examples.TenantRows.{tenant_codec}
use webui_hub.Examples.SpokeRows.{spoke_format, stroke_instants}
use webui_hub.Examples.Outside.{open_fernet, plain_json, blank_digest}
use webui_hub.Examples.Data.{edge, hub_disk, queue_disk, reboot}

edge_let_in : auth_spoke "acme" "s1" "key" hub_disk ≡ ok edge
unfolding auth_spoke decrypt_str
edge_let_in = rw edge_found

get_inbox-delivers_push_example :
    (get_inbox "p1" 10 "acme" "s1" "key" hub_disk).0
    ≡ ok (delivered 10 reboot ∷ delivered 10 (push_at "p1" 10 edge (reboot ∷ []) hub_disk) ∷ [])
get_inbox-delivers_push_example =
    get_inbox-delivers_push "p1" "key" 10 edge (reboot ∷ []) hub_disk edge_let_in edge_found refl
      refl queue_kept not_pushed

purge_expired_commands_lem_example :
    ("queue" == "queue" ≡ true
      → read_rows (queue_path "acme" "s1") (purge_expired_commands 5 queue_disk).1
        ≡ keep (is_unexpired 5) (read_rows (queue_path "acme" "s1") queue_disk))
    × ("queue" == "queue" ≡ false
        → open_file (queue_path "acme" "s1") (purge_expired_commands 5 queue_disk).1
          ≡ open_file (queue_path "acme" "s1") queue_disk)
purge_expired_commands_lem_example =
    purge_expired_commands_lem 5 (queue_path "acme" "s1") queue_disk
