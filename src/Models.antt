-- ===== src/Models.antt =====
-- app/data_models.py: the records that the files hold. Instants are counted in microseconds; an
-- id that pydantic draws (`_uuid`) and the instant of creation (`_now`) are given by the caller.
use webui_hub.Prelude.{ℕ, String, Bool, Option, none, some, List, [], ◌∷◌, map, ◌==◌, if◌then◌else◌}
use webui_hub.Json.{Json, Dict}

abbrev pub hour : ℕ
hour = 3_600_000_000

abbrev pub day : ℕ
day = 86_400_000_000

-- One entry of `tenant_roles`.
pub record TenantRole : Type 0 where
  pub tenant_id : String
  pub role : String

pub record User : Type 0 where
  pub id : String
  pub username : String
  pub hashed_password : String
  pub is_superadmin : Bool
  pub tenant_roles : List TenantRole
  pub created_at : ℕ

abbrev pub role_in : String → List TenantRole → Option String
role_in tenant_id [] = none
role_in tenant_id (tr ∷ rest) =
    let later = role_in tenant_id rest in if tr.tenant_id == tenant_id then some tr.role else later

unfoldable pub get_role : User → String → Option String
get_role user tenant_id = role_in tenant_id user.tenant_roles

unfoldable pub tenant_ids : User → List String
tenant_ids user = map (λ tr. tr.tenant_id) user.tenant_roles

pub record ProcessingMode : Type 0 where
  pub global_mode : String
  pub aruba_polling : Option String
  pub teams_webhook : Option String
  pub email : Option String
  pub heartbeat : Option String
  pub gkill : Option String
  pub schedules : Option String
  pub repo_sync : Option String

-- `getattr(self, feature, None)` at the names of the fields; any other name has no value.
mode_field : ProcessingMode → String → Option String
mode_field m feature =
    if feature == "global_mode"
    then some m.global_mode
    else if feature == "aruba_polling"
    then m.aruba_polling
    else if feature == "teams_webhook"
    then m.teams_webhook
    else if feature == "email"
    then m.email
    else if feature == "heartbeat"
    then m.heartbeat
    else if feature == "gkill"
    then m.gkill
    else if feature == "schedules"
    then m.schedules
    else if feature == "repo_sync"
    then m.repo_sync
    else none

-- `val if val else default`: an empty text counts as no value.
abbrev pub text_or : Option String → String → String
text_or none default = default
text_or (some t) default = if t == "" then default else t

unfoldable pub resolve : ProcessingMode → String → String
unfolding mode_field
resolve m feature = text_or (mode_field m feature) m.global_mode

abbrev pub centralized_mode : ProcessingMode
centralized_mode = record {
  global_mode = "centralized";
  aruba_polling = none;
  teams_webhook = none;
  email = none;
  heartbeat = none;
  gkill = none;
  schedules = none;
  repo_sync = none;
}

pub record Tenant : Type 0 where
  pub id : String
  pub name : String
  pub aruba_cid : Option String
  pub aruba_config_enc : Option String
  pub notification_config_enc : Option String
  pub github_config_enc : Option String
  pub default_processing_mode : ProcessingMode
  pub processing_modes : Dict String
  pub hub_config_enabled : Bool
  pub hub_config : Dict Json
  pub sim_conf_override : Option String
  pub user_conf_override : Option String
  pub client_sim_overrides : Dict (List String)
  pub central_sites_config : Dict Json
  pub central_browse_interval_minutes : ℕ
  pub usb_vidpids : List (Dict Json)
  pub onboarding_psk_enc : String
  pub onboarding_psks_enc : List String
  pub created_at : ℕ
  pub created_by : String
  pub deleted_at : Option ℕ

pub record Spoke : Type 0 where
  pub id : String
  pub tenant_id : String
  pub hostname : String
  pub label : String
  pub spoke_name : String
  pub assigned_site : String
  pub assigned_sites : List String
  pub status : String
  pub api_key_enc : Option String
  pub proxmox_host : String
  pub proxmox_token_enc : String
  pub seed_config : Dict Json
  pub config : Dict Json
  pub processing_mode : ProcessingMode
  pub config_version : ℕ
  pub applied_config_version : ℕ
  pub last_config_applied_at : Option ℕ
  pub last_pushed_config_hash : Option String
  pub last_seen : Option ℕ
  pub telemetry : Dict Json
  pub created_at : ℕ

pub record PendingSpoke : Type 0 where
  pub id : String
  pub hostname : String
  pub label : String
  pub spoke_name : String
  pub tenant_hint : String
  pub seed_config : Dict Json
  pub registered_at : ℕ
  pub last_seen : Option ℕ

pub record Command : Type 0 where
  pub id : String
  pub spoke_id : String
  pub tenant_id : String
  pub target : String
  pub type : String
  pub payload : Dict Json
  pub status : String
  pub created_at : ℕ
  pub expires_at : ℕ
  pub delivered_at : Option ℕ
  pub executed_at : Option ℕ
  pub result : Option (Dict Json)

pub record AuditEntry : Type 0 where
  pub id : String
  pub spoke_id : String
  pub tenant_id : String
  pub task_type : String
  pub execution_mode : String
  pub status : String
  pub detail : String
  pub initiated_by : String
  pub result : Option (Dict Json)
  pub timestamp : ℕ

-- `Command(spoke_id=…, tenant_id=…, type=…, target=…, payload=…, expires_at=…)` at an instant.
abbrev pub new_command : String → ℕ → String → String → String → String → Dict Json → ℕ → Command
new_command id now spoke_id tenant_id target type payload expires_at = record {
  id = id;
  spoke_id = spoke_id;
  tenant_id = tenant_id;
  target = target;
  type = type;
  payload = payload;
  status = "queued";
  created_at = now;
  expires_at = expires_at;
  delivered_at = none;
  executed_at = none;
  result = none;
}
