-- ===== src/Examples/QueueRuns.antt =====
-- Runs of the queue's mailbox, life and races, and of a queued command's route.
use webui_hub.Prelude.{◌≡◌, refl, [], ◌∷◌}
use webui_hub.Disk.{read_rows, open_file}
use webui_hub.Exec.{ok}
use webui_hub.Codec.{validate_all, validate_each}
use webui_hub.Store.Queue.{
  load_queue, enqueue_command, get_queued_commands, load_queue-save_queue_self,
}
use webui_hub.Store.Queue.Mailbox.{posts, takes, looks, drops, run, answers}
use webui_hub.Store.Queue.Mailbox.Refines.{run-answers}
use webui_hub.Store.Queue.Life.{IsTimed, here, next, enqueue, fetch, Reach-IsTimed}
use webui_hub.CommandRoutes.{Drawn, CreateCommandRequest}
use webui_hub.Examples.Rows.{command_codec, audit_codec}
use webui_hub.Examples.SpokeRows.{spoke_format, stroke_instants}
use webui_hub.Examples.Data.{reboot, queue_disk}

run-answers_example :
    (run "acme" "s1"
      ((5, looks) ∷ (6, drops ("c1" ∷ [])) ∷ (7, posts reboot) ∷ (8, takes) ∷ (9, takes) ∷ [])
      queue_disk).0
    ≡ ok (
        answers "acme" "s1"
          ((5, looks) ∷ (6, drops ("c1" ∷ [])) ∷ (7, posts reboot) ∷ (8, takes) ∷ (9, takes) ∷ [])
          (reboot ∷ []))
run-answers_example =
    run-answers "acme" "s1"
      ((5, looks) ∷ (6, drops ("c1" ∷ [])) ∷ (7, posts reboot) ∷ (8, takes) ∷ (9, takes) ∷ [])
      (reboot ∷ []) queue_disk (load_queue-save_queue_self "acme" "s1" (reboot ∷ []) _)

no_queues : IsTimed []
unfolding load_queue validate_all validate_each read_rows open_file
no_queues t s = ([], refl, tt)

Reach-IsTimed_example :
    IsTimed (get_queued_commands 8 "acme" "s1" (enqueue_command 5 reboot []).1).1
Reach-IsTimed_example =
    Reach-IsTimed no_queues (next (next here (enqueue [] 5 reboot refl)) (fetch _ 8 "acme" "s1"))

abbrev drawn : Drawn
drawn = record { command_id = "c9"; audit_id = "a9"; now = 8 }

abbrev rotate_request : CreateCommandRequest
rotate_request = record {
  tenant_id = "acme";
  spoke_id = "s1";
  type = "rotate_key";
  target = "spoke";
  payload = [];
}
