-- ===== src/Examples/TaskRuns.antt =====
-- Runs of the tasks in the background.
use webui_hub.Prelude.{
  ℕ, Option, some, none, ◌==◌, elem, ◌≡◌, ◌<◌, refl, false, List, [], ◌∷◌, ◌*◌, length, arith,
  if◌then◌else◌, inl,
}
use webui_hub.Json.{Json, Dict, num, same_json, str, null, get, put, truthy}
use webui_hub.Text.{strip, lstrip, rstrip, is_space, lower}
use webui_hub.Exec.{ok}
use webui_hub.Store.Tenants.{restore_missing}
use webui_hub.Crypto.{JsonText}
use webui_hub.Models.{Spoke, Command}
use webui_hub.Store.Queue.{enqueue_command, load_queue, save_queue, open_file-save_queue}
use webui_hub.Store.Audit.{append_audit, load_audit}
use webui_hub.Codec.{validate_all}
use webui_hub.Disk.{read_rows, open_file, read_rows-same, audit_path, path_eq-kind}
use webui_hub.Tasks.{Draw, task_command, task_audit}
use webui_hub.Tasks.Notifications.{send_notification}
use webui_hub.Tasks.Notifications.Dropped.{send_notification-no_spoke}
use webui_hub.Tasks.Monitored.{
  Central, minute, number_at, check_item, look_up, found_item, missed_item, since_first, told_item,
}
use webui_hub.Tasks.Monitored.Spaced.{told_at, SpacedFrom, told_at-SpacedFrom}
use webui_hub.Tasks.Schedules.{Clock, Pass, pieces, schedule_spokes, due_schedule}
use webui_hub.Store.Payload.{get_default}
use webui_hub.Tasks.Schedules.Once.{schedule_spokes_again}
use webui_hub.SpokeRoutes.Updates.{
  Versions, UpdateJob, World, fresh_update, poll_update_job, second,
}
use webui_hub.SpokeRoutes.Updates.Ends.{Ends, poll_update_job-Ends}
use webui_hub.SpokeRoutes.Updates.Sent.{poll_all, poll_all_lem, agent_pending}
use webui_hub.Examples.Rows.{command_codec, audit_codec}
use webui_hub.Examples.TenantRows.{tenant_codec}
use webui_hub.Examples.Outside.{open_fernet, plain_json}
use webui_hub.Examples.SpokeRows.{spoke_format, stroke_instants}
use webui_hub.Examples.Data.{edge, hub_disk}

-- A process that looks at its clock each 16 seconds, and whose files no other task changes.
abbrev steady : World
steady = record {
  at = λ n. n * (16 * second);
  issues = λ n. record { now = n; id_for = λ s. s };
  files = λ n d. d;
}

abbrev old_versions : Versions
old_versions = record { agent = str "1.0"; spoke = null }

abbrev edge_job : UpdateJob
edge_job = record { completed = false; spokes = ("s1", fresh_update old_versions) ∷ [] }

poll_update_job-Ends_example : Ends (poll_update_job steady "acme" 41 edge_job hub_disk)
poll_update_job-Ends_example =
    poll_update_job-Ends steady (λ n. omega arith) "acme" edge_job hub_disk

abbrev polls : List Versions
polls = old_versions ∷ old_versions ∷ old_versions ∷ old_versions ∷ old_versions ∷ []

poll_all_lem_example :
    let after = poll_all (fresh_update old_versions) polls in
    (after.1 ≡ (if agent_pending after.0 then 0 else 1))
    × (4 < length polls → (after.1 ≡ 1) × (agent_pending after.0 ≡ false))
poll_all_lem_example = poll_all_lem old_versions polls

abbrev none_shown : Central
none_shown = record {
  site_names = [];
  alert_names = [];
  insight_names = [];
  client_macs = [];
  alert_ts = [];
  insight_ts = [];
  device_names = [];
}

abbrev lobby : Dict Json
lobby = ("type", str "client") ∷ ("identifier", str "aa:bb") ∷ []

-- The user is told of a missing client after half an hour, and again an hour later.
abbrev checks : List (ℕ × Central)
checks =
    (100 * minute, none_shown)
    ∷ (129 * minute, none_shown)
    ∷ (130 * minute, none_shown)
    ∷ (150 * minute, none_shown)
    ∷ (190 * minute, none_shown)
    ∷ []

lobby_told :
    told_at none lobby checks
    ≡ (130 * minute, some (100 * minute)) ∷ (190 * minute, some (100 * minute)) ∷ []
unfolding told_at check_item look_up found_item missed_item since_first told_item number_at truthy
    get put strip lstrip rstrip is_space lower elem
lobby_told = refl

lobby_there : truthy (get_default "missing_since" lobby null) ≡ false
unfolding get truthy
lobby_there = refl

told_at-SpacedFrom_example :
    SpacedFrom (number_at "last_notified" lobby) (told_at none lobby checks)
told_at-SpacedFrom_example = told_at-SpacedFrom lobby checks lobby_there

abbrev draw : Draw
draw = record { now = 200 * minute; command_id = λ s. s; audit_id = λ s. s }

send_notification-no_spoke_example :
    send_notification draw "acme" "" "Monitored Client No Longer Reporting" "gone" "distributed"
      hub_disk
    ≡ (ok [], restore_missing hub_disk)
send_notification-no_spoke_example =
    send_notification-no_spoke draw "acme" "Monitored Client No Longer Reporting" "gone" hub_disk

abbrev sunday : Clock
sunday = record { day = "sunday"; hour = 2; minute = 0; key = "2025-06-01 02:00" }

-- A spoke with the default schedule.
abbrev timed : Spoke
timed = record edge { config = ("reclone_schedule_enabled", str "on") ∷ [] }

abbrev clock_int : Json → Option ℕ
clock_int (num n) = some n
clock_int (str t) = if t == "02" then some 2 else if t == "00" then some 0 else none
clock_int _ = none

abbrev clock_json : JsonText
clock_json = record {
  dumps = λ j. "";
  loads = λ t. some (str t);
  str_of = plain_json.str_of;
  int_of = clock_int;
  str_of_str = λ t. refl;
  int_of_num = λ n. refl;
}

abbrev scheduled : Pass
scheduled = schedule_spokes ⦃json = clock_json⦄ draw sunday "acme" (timed ∷ []) [] []

timed_due : due_schedule ⦃json = clock_json⦄ sunday timed ≡ ok (some "sunday 02:00")
unfolding due_schedule same_json get pieces strip lstrip rstrip is_space lower
timed_due = refl

no_queue : load_queue "acme" "s1" [] ≡ ok []
unfolding load_queue validate_all read_rows open_file
no_queue = refl

no_log : (cmds : List Command) → load_audit "acme" "s1" (save_queue "acme" "s1" cmds []) ≡ ok []
unfolding load_audit validate_all read_rows open_file
no_log cmds =
    rw
      (read_rows-same (audit_path "acme" "s1") (save_queue "acme" "s1" cmds []) [] (
        open_file-save_queue "acme" "s1" cmds [] (audit_path "acme" "s1")
          (path_eq-kind _ (audit_path "acme" "s1") refl)))
      refl

went : scheduled.0 ≡ ok tt
unfolding schedule_spokes enqueue_command append_audit get task_audit task_command
went = rw timed_due (rw no_queue (rw no_log refl))

-- The spoke as it is loaded in the later pass, with another name.
abbrev renamed : Spoke
renamed = record timed { label = "another" }

schedule_spokes_again_example :
    schedule_spokes ⦃json = clock_json⦄ draw sunday "acme" (renamed ∷ []) scheduled.1 hub_disk
    ≡ (ok tt, scheduled.1, hub_disk)
schedule_spokes_again_example =
    schedule_spokes_again ⦃json = clock_json⦄ sunday "acme" draw draw (timed ∷ []) (renamed ∷ []) []
      [] hub_disk went (inl (record { id = refl; status = refl; config = refl }), tt)
