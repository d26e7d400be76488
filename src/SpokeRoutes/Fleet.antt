-- ===== src/SpokeRoutes/Fleet.antt =====
-- The routes by which users configure and update the spokes of a tenant (app/routers/spokes.py).
pub mod Pushed
use webui_hub.Prelude.{
  ℕ, String, ◌≡◌, refl, Bool, true, false, not, ◌&&◌, ◌||◌, Option, none, some, List, [], ◌∷◌, ◌++◌,
  ◌==◌, ◌+◌, ◌*◌, if◌then◌else◌, ltb, keep, map, length,
}
use webui_hub.Text.{strip}
use webui_hub.Json.{Json, Dict, str, num, arr, get, put, truthy}
use webui_hub.Disk.{Disk}
use webui_hub.Exec.{
  Exec, Result, ok, raised, http_error, return, raise, reading, look, write, for_each, ◌>>=◌, ◌>>◌,
}
use webui_hub.Codec.{Codec}
use webui_hub.Crypto.{Fernet, JsonText, encrypt_str}
use webui_hub.Models.{User, Tenant, Spoke, Command, new_command, get_role, hour}
use webui_hub.Auth.{require_tenant_access}
use webui_hub.Store.Tenants.{restore_missing, get_tenant}
use webui_hub.Store.Lookup.{get_approved_spoke_by_id}
use webui_hub.Store.Spokes.{get_spoke, load_spokes, save_spoke, delete_spoke, is_approved}
use webui_hub.Store.Spokes.Format.{SpokeFormat, Instants}
use webui_hub.Store.Queue.{enqueue_command}
use webui_hub.Store.Payload.Whole.{update}
use webui_hub.Store.Usb.{items_of}
use webui_hub.Store.Settings.{get_tenant_usb_vidpids, set_tenant_usb_vidpids}
use webui_hub.CommandRoutes.{approved_or_raise}
use webui_hub.SpokeRoutes.Registration.{without_auth_keys}
use webui_hub.SpokeRoutes.UsbDevices.{Device, normalize_usb_vidpids}

-- The instant, and the id of the command that is drawn for a spoke.
pub record Issue : Type 0 where
  pub now : ℕ
  pub id_for : String → String

abbrev is_admin_role : Option String → Bool
is_admin_role none = false
is_admin_role (some role) = role == "admin"

abbrev admin_or_raise : String → User → Result User → Result User
admin_or_raise tenant_id user (raised e) = raised e
admin_or_raise tenant_id user (ok u) =
    if user.is_superadmin || is_admin_role (get_role user tenant_id)
    then ok u
    else raised (http_error 403)

-- `_require_tenant_admin`, whose tenant is the one it is given.
unfoldable pub admin_of : String → User → Result User
admin_of tenant_id user = admin_or_raise tenant_id user (require_tenant_access tenant_id user)

-- Was the spoke seen in the last five minutes?
abbrev pub seen_since : ℕ → Option ℕ → Bool
seen_since now none = false
seen_since now (some at) = ltb now (at + 300 * 1000000)

unfoldable pub is_spoke_online : ℕ → Spoke → Bool
is_spoke_online now s = seen_since now s.last_seen

abbrev pub found_spoke : Option Spoke → Result Spoke
found_spoke none = raised (http_error 404)
found_spoke (some s) = ok s

abbrev found_tenant : Option Tenant → Result Tenant
found_tenant none = raised (http_error 404)
found_tenant (some t) = ok t

-- The configuration that is pushed: the spoke's own, updated, without the keys of its logins.
abbrev pub next_config : Dict Json → Spoke → Dict Json
next_config body s = without_auth_keys (update s.config body)

abbrev pub reconfigured_by : Dict Json → Spoke → Spoke
reconfigured_by body s = record s {
  config = next_config body s;
  config_version = s.config_version + 1;
}

abbrev pub config_push : Issue → String → String → Dict Json → Spoke → Command
config_push g tenant_id spoke_id body s =
    new_command (g.id_for spoke_id) g.now spoke_id tenant_id "spoke" "config_update"
      (put "__config_version" (num (s.config_version + 1)) (next_config body s)) (g.now + 24 * hour)

-- A device as the tenant's settings hold it.
abbrev device_fields : Device → Dict Json
device_fields d = ("vidpid", str d.vidpid) ∷ ("type", str d.type) ∷ ("label", str d.label) ∷ []

pub record ProxmoxCredentials : Type 0 where
  pub proxmox_token : Option String
  pub proxmox_host : String

abbrev stripped_token : ⦃fernet : Fernet⦄ → String → String
stripped_token token = if strip token == "" then "" else encrypt_str (strip token)

abbrev with_token : ⦃fernet : Fernet⦄ → Option String → Spoke → Spoke
with_token none s = s
with_token (some token) s = record s { proxmox_token_enc = stripped_token token }

abbrev pub proxmox_host_of : Spoke → String
proxmox_host_of s = if strip s.proxmox_host == "" then strip s.hostname else strip s.proxmox_host

module _ ⦃format : SpokeFormat⦄ ⦃times : Instants⦄ where
  -- The host, and whether a token is stored.
  unfoldable pub get_spoke_proxmox_credentials : String → String → User → Exec (String × Bool)
  get_spoke_proxmox_credentials tenant_id spoke_id user = do
    u ← reading (λ d. admin_of tenant_id user)
    s ← reading (λ d. found_spoke (get_spoke tenant_id spoke_id d))
    return (proxmox_host_of s, not (strip s.proxmox_token_enc == ""))

  unfoldable pub get_spoke_config : String → String → User → Exec (Dict Json × Dict Json)
  get_spoke_config tenant_id spoke_id user = do
    u ← reading (λ d. require_tenant_access tenant_id user)
    s ← reading (λ d. found_spoke (get_spoke tenant_id spoke_id d))
    return (s.config, s.telemetry)

  abbrev admin_of_found : User → Option (String × Spoke) → Result (String × Spoke)
  admin_of_found user none = raised (http_error 404)
  admin_of_found user (some (tenant_id, s)) = after_check (admin_of tenant_id user)
    where
      after_check : Result User → Result (String × Spoke)
      after_check (ok u) = ok (tenant_id, s)
      after_check (raised e) = raised e

  unfoldable pub require_spoke_admin :
      ⦃tenants : Codec Tenant⦄ → String → User → Disk → Result (String × Spoke)
  require_spoke_admin spoke_id user d = admin_of_found user (get_approved_spoke_by_id spoke_id d)

  unfoldable pub delete_spoke_route : ⦃tenants : Codec Tenant⦄ → String → User → Exec (Unit {0})
  delete_spoke_route spoke_id user = do
    write restore_missing
    found ← reading (require_spoke_admin spoke_id user)
    write (delete_spoke found.0 spoke_id)

  module _ ⦃commands : Codec Command⦄ where
    -- The new version.
    unfoldable pub queue_spoke_config_push : Issue → String → String → Dict Json → Exec ℕ
    queue_spoke_config_push g tenant_id spoke_id body = do
      s ← reading (λ d. found_spoke (get_spoke tenant_id spoke_id d))
      write (save_spoke (reconfigured_by body s))
      enqueue_command g.now (config_push g tenant_id spoke_id body s)
      return (s.config_version + 1)

    abbrev push_token : Issue → String → String → Option String → Exec (Unit {0})
    push_token g tenant_id spoke_id none = return tt
    push_token g tenant_id spoke_id (some token) = do
      version ←
          queue_spoke_config_push g tenant_id spoke_id
            (("proxmox_api_token", str (strip token)) ∷ [])
      return tt

    unfoldable pub set_spoke_proxmox_credentials :
        ⦃fernet : Fernet⦄ → Issue → String → String → ProxmoxCredentials → User → Exec Spoke
    set_spoke_proxmox_credentials g tenant_id spoke_id payload user = do
      u ← reading (λ d. admin_of tenant_id user)
      s ← reading (λ d. found_spoke (get_spoke tenant_id spoke_id d))
      let r =
          with_token payload.proxmox_token (record s { proxmox_host = strip payload.proxmox_host })
      write (save_spoke r)
      push_token g tenant_id spoke_id payload.proxmox_token
      return r

    -- `store.enqueue_command(Command(type=..., payload=..., expires_at=_now() + timedelta(hours=24)))`
    abbrev pub issue : Issue → String → String → Dict Json → Spoke → Exec (Unit {0})
    issue g tenant_id type payload s =
        enqueue_command g.now (
          new_command (g.id_for s.id) g.now s.id tenant_id "spoke" type payload (g.now + 24 * hour))

    abbrev some_or_404 : List Spoke → Result (List Spoke)
    some_or_404 [] = raised (http_error 404)
    some_or_404 (s ∷ spokes) = ok (s ∷ spokes)

    -- A command for each approved spoke of the tenant; the ids of the spokes.
    unfoldable pub issue_to_all : Issue → String → String → Dict Json → User → Exec (List String)
    issue_to_all g tenant_id type payload user = do
      u ← reading (λ d. admin_of tenant_id user)
      spokes ← reading (λ d. some_or_404 (keep is_approved (load_spokes tenant_id d)))
      for_each spokes (issue g tenant_id type payload)
      return (map (λ s. s.id) spokes)

    unfoldable pub update_spokes_via_agent : Issue → String → User → Exec (List String)
    unfolding issue_to_all
    update_spokes_via_agent g tenant_id user =
        issue_to_all g tenant_id "proxmox_agent_command" (("action", str "update_spoke") ∷ []) user

    unfoldable pub force_update_spoke_servers : Issue → String → User → Exec (List String)
    unfolding issue_to_all
    force_update_spoke_servers g tenant_id user = issue_to_all g tenant_id "self_update" [] user

    unfoldable pub update_spoke_proxmox_agent : Issue → String → String → User → Exec (Unit {0})
    update_spoke_proxmox_agent g tenant_id spoke_id user = do
      u ← reading (λ d. admin_of tenant_id user)
      s ← reading (λ d. approved_or_raise (get_spoke tenant_id spoke_id d))
      issue g tenant_id "proxmox_agent_update" [] s

    abbrev is_given : Option Json → Bool
    is_given none = false
    is_given (some j) = truthy j

    unfoldable pub send_proxmox_agent_command :
        Issue → String → String → Dict Json → User → Exec (Unit {0})
    send_proxmox_agent_command g tenant_id spoke_id body user = do
      u ← reading (λ d. admin_of tenant_id user)
      s ← reading (λ d. approved_or_raise (get_spoke tenant_id spoke_id d))
      reading (λ d. if is_given (get "action" body) then ok tt else raised (http_error 400))
      enqueue_command g.now (
          new_command (g.id_for s.id) g.now s.id tenant_id "spoke" "proxmox_agent_command" body
            (g.now + hour))

    module _ ⦃tenants : Codec Tenant⦄ where
      abbrev pub push_usb : Issue → String → List (Dict Json) → Spoke → Exec (Unit {0})
      push_usb g tenant_id devices s = do
        version ←
            queue_spoke_config_push g tenant_id s.id (("usb_vidpids", arr (items_of devices)) ∷ [])
        return tt

      -- The spokes that were pushed to, and those of them that were online.
      unfoldable pub push_tenant_usb_config_to_all_spokes :
          ⦃json : JsonText⦄
          → Issue
          → String
          → List (Dict Json)
          → User
          → Exec (List String × List String)
      push_tenant_usb_config_to_all_spokes g tenant_id items user = do
        u ← reading (λ d. admin_of tenant_id user)
        devices ← reading (λ d. normalize_usb_vidpids items)
        found ← (λ d. (
          ok (set_tenant_usb_vidpids tenant_id (map device_fields devices) d).0,
          (set_tenant_usb_vidpids tenant_id (map device_fields devices) d).1,
        ))
        tenant ← reading (λ d. found_tenant found)
        spokes ← look (λ d. keep is_approved (load_spokes tenant_id d))
        for_each spokes (push_usb g tenant_id tenant.usb_vidpids)
        return (map (λ s. s.id) spokes, map (λ s. s.id) (keep (is_spoke_online g.now) spokes))
