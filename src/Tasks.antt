-- ===== src/Tasks.antt =====
-- The tasks in the background (app/tasks.py): what they queue and log for a spoke.
pub mod Notifications
pub mod Monitored
pub mod Online
pub mod Schedules
use webui_hub.Prelude.{ℕ, String, none, ◌+◌, ◌*◌}
use webui_hub.Json.{Json, Dict}
use webui_hub.Models.{Command, AuditEntry, new_command, hour}

-- The instant, and the ids that are drawn for a spoke's command and for its audit entry.
pub record Draw : Type 0 where
  pub now : ℕ
  pub command_id : String → String
  pub audit_id : String → String

-- `_cmd`
unfoldable pub task_command : Draw → String → String → String → Dict Json → Command
task_command g spoke_id tenant_id cmd_type payload =
    new_command (g.command_id spoke_id) g.now spoke_id tenant_id "spoke" cmd_type payload
      (g.now + 24 * hour)

-- `_audit`
unfoldable pub task_audit : Draw → String → String → String → String → String → String → AuditEntry
task_audit g spoke_id tenant_id task_type mode status detail = record {
  id = g.audit_id spoke_id;
  spoke_id = spoke_id;
  tenant_id = tenant_id;
  task_type = task_type;
  execution_mode = mode;
  status = status;
  detail = detail;
  initiated_by = "system";
  result = none;
  timestamp = g.now;
}
