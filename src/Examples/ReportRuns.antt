-- ===== src/Examples/ReportRuns.antt =====
-- Runs of a spoke's reports, of the devices of a tenant and of a pushed configuration.
use webui_hub.SpokeRoutes.UsbDevices.Certified.{last_with, normalize_usb_vidpids_lem}
use webui_hub.Prelude.{
  ◌≡◌, refl, ◌∙◌, true, some, none, List, [], ◌∷◌, All, arith, ◌+◌, ◌*◌, not, any, find, ◌==◌,
  String,
}
use webui_hub.Json.{Json, Dict, str, num, get, truthy}
use webui_hub.Disk.{queue_path}
use webui_hub.Exec.{ok, raised, http_error}
use webui_hub.Hub.{Hub}
use webui_hub.Models.{Command, new_command, hour}
use webui_hub.Store.Spokes.{get_spoke, save_spoke}
use webui_hub.Store.Spokes.Format.{migrate_assigned_site}
use webui_hub.Store.Spokes.Saved.{get_spoke-save_spoke}
use webui_hub.Store.Spokes.Frame.{open_file-save_spoke}
use webui_hub.Store.Queue.{
  load_queue, save_queue, executed, load_queue-same, load_queue-save_queue_self,
}
use webui_hub.SpokeRoutes.Reports.{Drawn, AckPayload, handle_spoke_ack, acked_version}
use webui_hub.SpokeRoutes.Reports.Applied.{handle_spoke_ack_lem, acked_spoke}
use webui_hub.SpokeRoutes.UsbDevices.{
  Device, IsDevice, item_vidpid, is_vidpid, normalize_usb_vidpids,
}
use webui_hub.SpokeRoutes.Fleet.{Issue}
use webui_hub.Examples.Rows.{command_codec, audit_codec}
use webui_hub.Examples.SpokeRows.{spoke_format, stroke_instants}
use webui_hub.Examples.Outside.{plain_json}
use webui_hub.Examples.Data.{edge}

abbrev push : Command
push =
    new_command "p1" 4 "s1" "acme" "spoke" "config_update" (("__config_version", num 2) ∷ [])
      (4 + 24 * hour)

abbrev pushed_hub : Hub
pushed_hub = record {
  disk = save_spoke edge (save_queue "acme" "s1" (push ∷ []) []);
  registration_log = [];
  broadcasts = [];
}

abbrev drawn : Drawn
drawn = record { now = 9; command_id = "c9"; audit_id = "a9" }

abbrev acked : AckPayload
acked = record { command_id = "p1"; status = "executed"; result = none }

push_queued : load_queue "acme" "s1" pushed_hub.disk ≡ ok (push ∷ [])
push_queued =
    load_queue-same "acme" "s1" pushed_hub.disk (save_queue "acme" "s1" (push ∷ []) [])
      (open_file-save_spoke (queue_path "acme" "s1") edge _ refl refl)
    ∙ load_queue-save_queue_self "acme" "s1" (push ∷ []) []

push_version : acked_version push.payload ≡ ok 2
unfolding acked_version get truthy
push_version = refl

handle_spoke_ack_lem_example :
    ((handle_spoke_ack drawn "acme" "s1" acked pushed_hub).0 ≡ ok tt)
    × (get_spoke "acme" "s1" (handle_spoke_ack drawn "acme" "s1" acked pushed_hub).1.disk
        ≡ some (acked_spoke 9 2 edge))
    × (load_queue "acme" "s1" (handle_spoke_ack drawn "acme" "s1" acked pushed_hub).1.disk
        ≡ ok (executed 9 none push ∷ []))
    × ((handle_spoke_ack drawn "acme" "s1" acked pushed_hub).1.broadcasts ≡ [])
handle_spoke_ack_lem_example =
    handle_spoke_ack_lem drawn edge acked push (push ∷ []) 2 pushed_hub push_queued refl refl
      push_version (omega arith) refl
      (get_spoke-save_spoke edge _ refl (unfold migrate_assigned_site in refl)) refl
      (unfold migrate_assigned_site in refl)

abbrev items : List (Dict Json)
items = (("vidpid", str " 0BDA:8153") ∷ ("type", str "Wired") ∷ []) ∷ []

normalize_usb_vidpids_lem_example :
    (any (λ item. not (is_vidpid (item_vidpid item))) items ≡ true
      → normalize_usb_vidpids items ≡ raised (http_error 400))
    × (All (λ item. is_vidpid (item_vidpid item) ≡ true) items
        → (ds : List Device) × (normalize_usb_vidpids items ≡ ok ds)
          × All IsDevice ds
          × ((v : String) → find (λ d. d.vidpid == v) ds ≡ last_with v items))
normalize_usb_vidpids_lem_example = normalize_usb_vidpids_lem items

abbrev issue : Issue
issue = record { now = 9; id_for = λ s. "c7" }

abbrev body : Dict Json
body = ("theme", str "dark") ∷ []
