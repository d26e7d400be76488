-- ===== src/SpokeRoutes/Reports.antt =====
-- What a spoke reports (app/routers/spokes.py, `_apply_spoke_telemetry`, `_handle_spoke_ack` and the
-- routes over them).
pub mod Applied
use webui_hub.Prelude.{
  ℕ, String, ◌≡◌, refl, Bool, true, false, not, ◌&&◌, ◌||◌, Option, none, some, List, [], ◌∷◌, ◌++◌,
  ◌==◌, ◌+◌, ◌*◌, if◌then◌else◌, ltb, any,
}
use webui_hub.Text.{strip}
use webui_hub.Json.{Json, Dict, null, bool, str, obj, num, get, of_fields, to_fields}
use webui_hub.Disk.{Disk}
use webui_hub.Exec.{Result, ok, raised, value_error, reading, look, write}
use webui_hub.Codec.{Codec}
use webui_hub.Crypto.{Fernet, JsonText}
use webui_hub.Hub.{Hub, Task, done, on_disk, emit, when, ◌>>=◌, ◌>>◌}
use webui_hub.Models.{Tenant, Spoke, Command, AuditEntry}
use webui_hub.Store.Tenants.{get_tenant, restore_missing}
use webui_hub.Store.Spokes.{save_spoke, mark_spoke_config_applied, update_spoke_telemetry}
use webui_hub.Store.Spokes.Format.{SpokeFormat, Instants}
use webui_hub.Store.Queue.{get_command, ack_command}
use webui_hub.Store.Payload.{or_json}
use webui_hub.Store.Payload.Whole.{build_spoke_config_payload}
use webui_hub.Store.Push.{
  Digest, ensure_config_update_command, ensure_config_clear_command, check_and_fix_config_drift,
}
use webui_hub.Store.Audit.{append_audit}
use webui_hub.CommandRoutes.{new_audit}
use webui_hub.SpokeRoutes.{auth_spoke}

-- The instant, and the ids that are drawn for a command and for an audit entry.
pub record Drawn : Type 0 where
  pub now : ℕ
  pub command_id : String
  pub audit_id : String

pub record AckResult : Type 0 where
  pub success : Option Bool
  pub task_type : Option String
  pub detail : String
  pub output : Json
  pub timestamp : Option String

-- The status that the spoke gives is not looked at.
pub record AckPayload : Type 0 where
  pub command_id : String
  pub status : String
  pub result : Option AckResult

abbrev field_if : String → Option Json → Dict Json
field_if key none = []
field_if key (some null) = []
field_if key (some j) = (key, j) ∷ []

abbrev json_bool : Option Bool → Option Json
json_bool none = none
json_bool (some b) = some (bool b)

abbrev json_text : Option String → Option Json
json_text none = none
json_text (some t) = some (str t)

-- `payload.result.model_dump(exclude_none=True)`
abbrev pub dump_result : AckResult → Dict Json
dump_result r =
    field_if "success" (json_bool r.success)
    ++ (field_if "task_type" (json_text r.task_type)
        ++ (("detail", str r.detail)
            ∷ (field_if "output" (some r.output) ++ field_if "timestamp" (json_text r.timestamp))))

abbrev dump_of : Option AckResult → Option (Dict Json)
dump_of none = none
dump_of (some r) = some (dump_result r)

abbrev flag_or : Bool → Option Bool → Bool
flag_or default none = default
flag_or default (some b) = b

-- `(result or {}).get("success", True)`
abbrev pub ack_succeeded : Option AckResult → Bool
ack_succeeded none = true
ack_succeeded (some r) = flag_or true r.success

abbrev status_of : AckResult → String
status_of r = if flag_or false r.success then "success" else "failure"

module _ ⦃json : JsonText⦄ where
  abbrev int_or_raise : Option ℕ → Result ℕ
  int_or_raise none = raised value_error
  int_or_raise (some n) = ok n

  -- `int(payload.get("__config_version", 0) or 0)`
  unfoldable pub acked_version : Dict Json → Result ℕ
  acked_version payload =
      int_or_raise (json.int_of (or_json (get "__config_version" payload) (num 0)))

  -- `str(payload.get(key) or "").strip()`
  unfoldable pub reported : String → Dict Json → String
  reported key payload = strip (json.str_of (or_json (get key payload) (str "")))

  module _ ⦃format : SpokeFormat⦄ ⦃times : Instants⦄ where
    -- The report of a configuration push that ack_succeeded marks its version as applied.
    abbrev pub mark_acked : Drawn → String → String → Bool → Option Command → Task (Unit {0})
    mark_acked g tenant_id spoke_id success none = done tt
    mark_acked g tenant_id spoke_id success (some c) =
        when ((c.type == "config_update") && success) (do
          version ← on_disk (reading (λ d. acked_version c.payload))
          when (ltb 0 version)
              (on_disk (write (mark_spoke_config_applied g.now tenant_id spoke_id version))))

    module _ ⦃entries : Codec AuditEntry⦄ where
      abbrev log_task : Drawn → String → String → AckResult → Option String → Task (Unit {0})
      log_task g tenant_id spoke_id r none = done tt
      log_task g tenant_id spoke_id r (some task_type) = when (not (task_type == "")) (do
        on_disk (
            append_audit g.now (
              new_audit g.audit_id g.now tenant_id spoke_id task_type "distributed" (status_of r)
                r.detail "spoke" (dump_result r)))
        emit (
            ("type", str "task_result")
            ∷ ("tenant_id", str tenant_id)
            ∷ ("spoke_id", str spoke_id)
            ∷ ("task_type", str task_type)
            ∷ ("status", str (status_of r))
            ∷ []))

      abbrev pub log_result : Drawn → String → String → Option AckResult → Task (Unit {0})
      log_result g tenant_id spoke_id none = done tt
      log_result g tenant_id spoke_id (some r) = log_task g tenant_id spoke_id r r.task_type

      module _ ⦃commands : Codec Command⦄ where
        unfoldable pub handle_spoke_ack : Drawn → String → String → AckPayload → Task (Unit {0})
        handle_spoke_ack g tenant_id spoke_id p = do
          command ← on_disk (get_command tenant_id spoke_id p.command_id)
          on_disk (ack_command g.now tenant_id spoke_id p.command_id (dump_of p.result))
          mark_acked g tenant_id spoke_id (ack_succeeded p.result) command
          log_result g tenant_id spoke_id p.result

        unfoldable pub ack_command_endpoint :
            ⦃fernet : Fernet⦄ → Drawn → String → String → String → AckPayload → Task (Unit {0})
        ack_command_endpoint g tenant_id spoke_id api_key p = do
          s ← on_disk (reading (auth_spoke tenant_id spoke_id api_key))
          handle_spoke_ack g tenant_id spoke_id p

abbrev is_value : Json → Bool
is_value null = false
is_value _ = true

abbrev config_in : Dict Json → Option Json → Dict Json
config_in default (some (obj fs)) = of_fields fs
config_in default _ = default

abbrev is_empty : Dict Json → Bool
is_empty [] = true
is_empty (e ∷ d) = false

-- `spoke.hostname = hostname`, if the report names one.
abbrev pub renamed : String → String → Spoke → Spoke
renamed hostname spoke_name s = record s {
  hostname = if hostname == "" then s.hostname else hostname;
  spoke_name = if spoke_name == "" then s.spoke_name else spoke_name;
}

abbrev differs : String → String → Bool
differs new old = not (new == "") && not (old == new)

-- The first configuration that a spoke without one reports.
abbrev pub seeds : Dict Json → Spoke → Bool
seeds config s = is_empty s.config && not (is_empty config)

abbrev pub seeded : Dict Json → Spoke → Spoke
seeded config s =
    if seeds config s
    then record s { config = config; config_version = 1; applied_config_version = 0 }
    else s

abbrev pub cleared : Bool → Spoke → Spoke
cleared b s = if b then record s { config_version = 0; applied_config_version = 0 } else s

module _ ⦃fernet : Fernet⦄ ⦃json : JsonText⦄ where
  unfoldable pub tenant_has_spoke_config_payload : Option Tenant → Disk → Bool
  tenant_has_spoke_config_payload tenant d =
      any (λ e. is_value e.1) (build_spoke_config_payload tenant d)

  -- Was the spoke configured by the hub, which has nothing to push any more?
  abbrev pub is_abandoned : Spoke → Option Tenant → Disk → Bool
  is_abandoned s none d = false
  is_abandoned s (some t) d =
      ltb 0 s.config_version && not (tenant_has_spoke_config_payload (some t) d)

  module _ ⦃digest : Digest⦄ ⦃format : SpokeFormat⦄ ⦃times : Instants⦄ ⦃commands : Codec Command⦄
      ⦃tenants : Codec Tenant⦄ where
    -- The report changes the object that the caller holds, which is answered.
    unfoldable pub apply_spoke_telemetry : Drawn → String → String → Spoke → Dict Json → Task Spoke
    apply_spoke_telemetry g tenant_id spoke_id spoke payload = do
      on_disk (write restore_missing)
      tenant ← on_disk (look (get_tenant tenant_id))
      abandoned ← on_disk (look (is_abandoned spoke tenant))
      let hostname = reported "hostname" payload
      let spoke_name = reported "spoke_name" payload
      let config = config_in [] (get "config" payload)
      let s = cleared abandoned (seeded config (renamed hostname spoke_name spoke))
      when abandoned (on_disk (ensure_config_clear_command g.command_id g.now tenant_id spoke_id))
      when
          (differs hostname spoke.hostname
            || (differs spoke_name spoke.spoke_name || (seeds config spoke || abandoned)))
          (on_disk (write (save_spoke s)))
      on_disk (write (update_spoke_telemetry g.now tenant_id spoke_id payload))
      drifted ← on_disk (check_and_fix_config_drift tenant_id spoke_id)
      when drifted (on_disk (ensure_config_update_command g.command_id g.now tenant_id spoke_id))
      emit (
          ("type", str "telemetry")
          ∷ ("tenant_id", str tenant_id)
          ∷ ("spoke_id", str spoke_id)
          ∷ [])
      done s

    unfoldable pub post_telemetry : Drawn → String → String → String → Dict Json → Task Spoke
    post_telemetry g tenant_id spoke_id api_key payload = do
      s ← on_disk (reading (auth_spoke tenant_id spoke_id api_key))
      apply_spoke_telemetry g tenant_id spoke_id s payload
