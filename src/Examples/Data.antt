-- ===== src/Examples/Data.antt =====
-- Concrete files: a platform with two tenants and a spoke that waits for a push.
use webui_hub.Prelude.{true, false, none, some, [], ◌∷◌, ◌+◌}
use webui_hub.Json.{str}
use webui_hub.Disk.{Disk}
use webui_hub.Models.{User, Tenant, Spoke, Command, new_command, hour, centralized_mode}
use webui_hub.Auth.{hash_password}
use webui_hub.Store.Users.{Mount, save_users, new_admin}
use webui_hub.Store.Tenants.{save_tenants}
use webui_hub.Store.Spokes.{save_spoke}
use webui_hub.Store.Queue.{save_queue}
use webui_hub.Examples.Rows.{user_codec, command_codec}
use webui_hub.Examples.TenantRows.{tenant_codec}
use webui_hub.Examples.SpokeRows.{spoke_format, stroke_instants}
use webui_hub.Examples.Outside.{
  open_fernet, plain_json, blank_digest, open_tokens, salted_passwords,
}

abbrev pub alice : User
alice = record {
  id = "u1";
  username = "alice";
  hashed_password = hash_password "sesame";
  is_superadmin = false;
  tenant_roles = record { tenant_id = "acme"; role = "admin" } ∷ [];
  created_at = 3;
}

abbrev pub root : User
root = new_admin "u0" 2 "root" "$toor"

abbrev pub mounted : Mount
mounted = record { stat_fails = false; scan_fails = false }

abbrev pub acme : Tenant
acme = record {
  id = "acme";
  name = "Acme";
  aruba_cid = none;
  aruba_config_enc = none;
  notification_config_enc = none;
  github_config_enc = none;
  default_processing_mode = centralized_mode;
  processing_modes = [];
  hub_config_enabled = true;
  hub_config = [];
  sim_conf_override = none;
  user_conf_override = none;
  client_sim_overrides = [];
  central_sites_config = [];
  central_browse_interval_minutes = 60;
  usb_vidpids = (("vidpid", str "1d6b:0002") ∷ []) ∷ (("vidpid", str "0bda:8153") ∷ []) ∷ [];
  onboarding_psk_enc = "";
  onboarding_psks_enc = [];
  created_at = 1;
  created_by = "root";
  deleted_at = none;
}

abbrev pub closed : Tenant
closed = record acme { id = "closed"; deleted_at = some 7 }

abbrev pub reboot : Command
reboot = new_command "c1" 4 "s1" "acme" "spoke" "reboot" [] (4 + hour)

abbrev pub edge : Spoke
edge = record {
  id = "s1";
  tenant_id = "acme";
  hostname = "edge";
  label = "Edge";
  spoke_name = "edge";
  assigned_site = "HQ";
  assigned_sites = "HQ" ∷ [];
  status = "approved";
  api_key_enc = some "key";
  proxmox_host = "";
  proxmox_token_enc = "";
  seed_config = [];
  config = [];
  processing_mode = centralized_mode;
  config_version = 2;
  applied_config_version = 1;
  last_config_applied_at = none;
  last_pushed_config_hash = none;
  last_seen = some 5;
  telemetry = [];
  created_at = 1;
}

abbrev pub queue_disk : Disk
queue_disk = save_queue "acme" "s1" (reboot ∷ []) (save_tenants (acme ∷ closed ∷ []) [])

abbrev pub hub_disk : Disk
hub_disk = save_spoke edge queue_disk

abbrev pub user_disk : Disk
user_disk = save_users (root ∷ alice ∷ []) []

abbrev pub tenant_disk : Disk
tenant_disk = save_tenants (acme ∷ closed ∷ []) []
