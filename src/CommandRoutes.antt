-- ===== src/CommandRoutes.antt =====
-- The routes that queue commands (app/routers/commands.py).
pub mod Queued
use webui_hub.Prelude.{
  ℕ, String, ◌≡◌, refl, Bool, true, false, not, ◌&&◌, ◌||◌, Option, none, some, List, [], ◌∷◌, ◌++◌,
  ◌==◌, ◌+◌, ◌*◌, if◌then◌else◌, elem,
}
use Prim.Native.String
use webui_hub.Json.{Json, Dict, str, num, obj, to_fields}
use webui_hub.Disk.{Disk}
use webui_hub.Exec.{Exec, Result, ok, raised, http_error, return, raise, reading, look, ◌>>=◌, ◌>>◌}
use webui_hub.Codec.{Codec}
use webui_hub.Crypto.{JsonText}
use webui_hub.Models.{
  User, Spoke, Command, AuditEntry, ProcessingMode, new_command, resolve, get_role, hour,
}
use webui_hub.Auth.{require_tenant_access, require_tenant_member}
use webui_hub.Store.Spokes.{get_spoke, is_approved}
use webui_hub.Store.Spokes.Format.{SpokeFormat, Instants}
use webui_hub.Store.Queue.{enqueue_command}
use webui_hub.Store.Queue.Upkeep.{list_commands, clear_command_queue}
use webui_hub.Store.Audit.{append_audit, get_audit}

pub record CreateCommandRequest : Type 0 where
  pub tenant_id : String
  pub spoke_id : String
  pub type : String
  pub target : String
  pub payload : Dict Json

pub record ProxmoxCommandRequest : Type 0 where
  pub action : String
  pub args : Dict Json
  pub target : String

abbrev pub joined : String → String → String
joined a b = String.◌++◌ a b

-- The ids that are drawn for the command and for its audit entry, and the instant.
pub record Drawn : Type 0 where
  pub command_id : String
  pub audit_id : String
  pub now : ℕ

abbrev pub approved_or_raise : Option Spoke → Result Spoke
approved_or_raise none = raised (http_error 404)
approved_or_raise (some s) = if is_approved s then ok s else raised (http_error 409)

abbrev found_or_404 : Option Spoke → Result (Unit {0})
found_or_404 none = raised (http_error 404)
found_or_404 (some s) = ok tt

abbrev dict : Dict Json → Json
dict d = obj (to_fields d)

-- `hasattr(processing_mode, type)`, at the names of the fields; a type that names a method of the
-- model is left out.
abbrev pub feature_names : List String
feature_names =
    "global_mode" ∷ "aruba_polling" ∷ "teams_webhook" ∷ "email" ∷ "heartbeat" ∷ "gkill"
    ∷ "schedules" ∷ "repo_sync" ∷ []

abbrev pub mode_of : ProcessingMode → String → String
mode_of mode type = if elem type feature_names then resolve mode type else "centralized"

abbrev pub new_audit :
    String
    → ℕ
    → String
    → String
    → String
    → String
    → String
    → String
    → String
    → Dict Json
    → AuditEntry
new_audit id now tenant_id spoke_id task_type execution_mode status detail initiated_by result =
    record {
      id = id;
      spoke_id = spoke_id;
      tenant_id = tenant_id;
      task_type = task_type;
      execution_mode = execution_mode;
      status = status;
      detail = detail;
      initiated_by = initiated_by;
      result = some result;
      timestamp = now;
    }

module _ ⦃commands : Codec Command⦄ ⦃entries : Codec AuditEntry⦄ where
  -- `store.enqueue_command(command)`, then `store.append_audit(entry)`.
  abbrev pub enqueue_and_log : ℕ → Command → AuditEntry → Exec Command
  enqueue_and_log now c entry = do enqueue_command now c; append_audit now entry; return c

  unfoldable pub queue_command :
      Drawn → String → String → String → Dict Json → User → String → Exec Command
  queue_command drawn tenant_id spoke_id command_type payload user execution_mode =
      enqueue_and_log drawn.now
        (new_command drawn.command_id drawn.now spoke_id tenant_id "spoke" command_type payload
          (drawn.now + 24 * hour))
        (new_audit drawn.audit_id drawn.now tenant_id spoke_id command_type execution_mode "pending"
          (joined "Queued command " command_type) user.username
          (("payload", dict payload) ∷ ("target", str "spoke") ∷ []))

  module _ ⦃format : SpokeFormat⦄ ⦃times : Instants⦄ where
    unfoldable pub get_approved_spoke : String → String → Disk → Result Spoke
    get_approved_spoke tenant_id spoke_id d = approved_or_raise (get_spoke tenant_id spoke_id d)

    unfoldable pub create_command : Drawn → CreateCommandRequest → User → Exec Command
    create_command drawn req user = do
      u ← reading (λ d. require_tenant_access req.tenant_id user)
      s ← reading (get_approved_spoke req.tenant_id req.spoke_id)
      enqueue_and_log drawn.now
          (new_command drawn.command_id drawn.now req.spoke_id req.tenant_id req.target req.type
            req.payload (drawn.now + 24 * hour))
          (new_audit drawn.audit_id drawn.now req.tenant_id req.spoke_id req.type
            (mode_of s.processing_mode req.type) "pending" (joined "Queued command " req.type)
            user.username (("payload", dict req.payload) ∷ ("target", str req.target) ∷ []))

    unfoldable pub repo_sync_spoke : Drawn → String → String → User → Exec Command
    repo_sync_spoke drawn tenant_id spoke_id user = do
      u ← reading (λ d. require_tenant_access tenant_id user)
      s ← reading (get_approved_spoke tenant_id spoke_id)
      queue_command drawn tenant_id spoke_id "repo_sync" [] user
          (resolve s.processing_mode "repo_sync")

    -- A spoke id that is given has a spoke.
    unfoldable pub check_spoke : String → String → Disk → Result (Unit {0})
    check_spoke tenant_id spoke_id d =
        if spoke_id == "" then ok tt else found_or_404 (get_spoke tenant_id spoke_id d)

    unfoldable pub list_commands_route : ℕ → String → String → User → Exec (List Command)
    list_commands_route now tenant_id spoke_id user = do
      u ← reading (λ d. require_tenant_access tenant_id user)
      reading (check_spoke tenant_id spoke_id)
      reading (list_commands now tenant_id spoke_id)

    abbrev is_admin_text : Option String → Bool
    is_admin_text none = false
    is_admin_text (some role) = (role == "admin") || (role == "superadmin")

    abbrev require_clearing : String → User → Result (Unit {0})
    require_clearing tenant_id user =
        if user.is_superadmin || is_admin_text (get_role user tenant_id)
        then ok tt
        else raised (http_error 403)

    abbrev all_or : String → String
    all_or spoke_id = if spoke_id == "" then "all" else spoke_id

    -- The count as a text is Python's, and is given.
    unfoldable pub clear_commands : (ℕ → String) → Drawn → String → String → User → Exec ℕ
    clear_commands show_count drawn tenant_id spoke_id user = do
      u ← reading (λ d. require_tenant_access tenant_id user)
      reading (λ d. require_clearing tenant_id user)
      reading (check_spoke tenant_id spoke_id)
      cleared ← clear_command_queue tenant_id spoke_id
      append_audit drawn.now (
          new_audit drawn.audit_id drawn.now tenant_id (all_or spoke_id) "clear_command_queue" "hub"
            "executed" (joined "Cleared " (joined (show_count cleared) " command(s) from queue"))
            user.username (("cleared", num cleared) ∷ ("spoke_id", str (all_or spoke_id)) ∷ []))
      return cleared

    unfoldable pub proxmox_command :
        Drawn → String → String → ProxmoxCommandRequest → User → Exec Command
    proxmox_command drawn tenant_id spoke_id req user = do
      u ← reading (λ d. require_tenant_member tenant_id user)
      s ← reading (get_approved_spoke tenant_id spoke_id)
      enqueue_and_log drawn.now
          (new_command drawn.command_id drawn.now spoke_id tenant_id req.target "proxmox"
            (("action", str req.action) ∷ ("args", dict req.args) ∷ []) (drawn.now + 24 * hour))
          (new_audit drawn.audit_id drawn.now tenant_id spoke_id "proxmox" "relay" "pending"
            (joined "Proxmox command: " req.action) user.username
            (("action", str req.action)
              ∷ ("args", dict req.args)
              ∷ ("target", str req.target)
              ∷ []))

    unfoldable pub get_spoke_audit : String → String → User → Exec (List AuditEntry)
    get_spoke_audit tenant_id spoke_id user = do
      u ← reading (λ d. require_tenant_access tenant_id user)
      reading (λ d. found_or_404 (get_spoke tenant_id spoke_id d))
      reading (get_audit tenant_id spoke_id)
