-- ===== src/SpokeRoutes/Registration.antt =====
-- The registration of spokes (app/routers/spokes.py, `_reg_log_append` to `register_spoke`).
pub mod Names
pub mod Approved
pub mod Pending
pub mod Keeps
pub mod Waits
pub mod Log
pub mod Again
use webui_hub.Prelude.{
  ℕ, String, ◌≡◌, Bool, true, false, not, ◌&&◌, ◌||◌, Option, none, some, List, [], ◌∷◌, ◌++◌, ◌==◌,
  ◌+◌, if◌then◌else◌, elem, keep,
}
use webui_hub.Text.{strip, lower}
use webui_hub.Json.{Json, Dict, str}
use webui_hub.Disk.{Disk}
use webui_hub.Exec.{Result, reading, look, write}
use webui_hub.Codec.{Codec}
use webui_hub.Crypto.{Fernet, JsonText}
use webui_hub.Hub.{Hub, Task, done, on_disk, ◌>>=◌, ◌>>◌}
use webui_hub.Models.{Tenant, Spoke, Command}
use webui_hub.Store.Tenants.{get_tenant_by_hint, restore_missing}
use webui_hub.Store.Lookup.{
  get_approved_spoke_by_id, get_approved_spoke_by_hostname, get_approved_spoke_by_api_key,
}
use webui_hub.Store.Spokes.Format.{SpokeFormat, Instants}
use webui_hub.Store.Pending.{PendingFormat}
use webui_hub.Store.Push.{Digest}
use webui_hub.SpokeRoutes.Registration.Names.{
  Given, Answer, Request, RegisterPayload, Uuids, is_valid_uuid, reg_log_append,
}
use webui_hub.SpokeRoutes.Registration.Approved.{reregister}
use webui_hub.SpokeRoutes.Registration.Pending.{try_psk, register_pending}

abbrev auth_keys : List String
auth_keys =
    "admin_password" ∷ "auth_provider" ∷ "local_users" ∷ "auth_ldap_url" ∷ "auth_ldap_bind_dn"
    ∷ "auth_ldap_bind_password" ∷ "auth_ldap_user_base" ∷ "auth_ldap_user_filter"
    ∷ "auth_ldap_group_admin" ∷ "auth_ldap_group_viewer" ∷ "auth_radius_host" ∷ "auth_radius_port"
    ∷ "auth_radius_secret" ∷ "auth_radius_role_attr" ∷ "auth_radius_admin_val" ∷ "auth_tacacs_host"
    ∷ "auth_tacacs_port" ∷ "auth_tacacs_secret" ∷ "auth_tacacs_admin_priv" ∷ []

abbrev pub without_auth_keys : Dict Json → Dict Json
without_auth_keys config = keep (λ e. not (elem e.0 auth_keys)) config

abbrev or_else : String → String → String
or_else t other = if t == "" then other else t

abbrev pub name_of : RegisterPayload → String
name_of p = or_else (strip p.spoke_name) p.hostname

abbrev pub request : RegisterPayload → String → String → Request
request p spoke_id tenant_hint = record {
  spoke_id = spoke_id;
  hostname = p.hostname;
  label = p.label;
  spoke_name = name_of p;
  tenant_hint = tenant_hint;
  psk = strip p.onboarding_psk;
  api_key = p.api_key;
  config = without_auth_keys p.config;
}

-- The id that the spoke asks for; one that is no UUID is logged and dropped.
unfoldable pub requested_id : ⦃uuids : Uuids⦄ → Given → RegisterPayload → Task String
unfolding reg_log_append
requested_id g p =
    let id = lower (strip p.spoke_id) in
    if not (id == "") && not (is_valid_uuid id)
    then (do
      reg_log_append g "invalid_spoke_id" (
          ("hostname", str p.hostname)
          ∷ ("spoke_name", str (name_of p))
          ∷ ("spoke_id", str id)
          ∷ ("ip", str g.client_ip)
          ∷ [])
      done "")
    else done id

abbrev hint_or_log : Given → RegisterPayload → Option Tenant → Task String
hint_or_log g p (some t) = done t.id
hint_or_log g p none = do
  reg_log_append g "invalid_tenant_hint" (
      ("hostname", str p.hostname)
      ∷ ("spoke_name", str (name_of p))
      ∷ ("tenant_hint", str (strip p.tenant_id_hint))
      ∷ ("ip", str g.client_ip)
      ∷ [])
  done ""

abbrev first_of : Option (String × Spoke) → Option (String × Spoke) → Option (String × Spoke)
first_of none other = other
first_of (some a) other = some a

module _ ⦃tenants : Codec Tenant⦄ where
  -- The id of the tenant that the spoke names by its id or its name.
  unfoldable pub resolved_hint : Given → RegisterPayload → Task String
  resolved_hint g p = if strip p.tenant_id_hint == "" then done "" else (do
    tenant ← on_disk (look (get_tenant_by_hint (strip p.tenant_id_hint)))
    hint_or_log g p tenant)

  module _ ⦃fernet : Fernet⦄ ⦃format : SpokeFormat⦄ ⦃times : Instants⦄ where
    -- By its id, else by its hostname, else by its key.
    unfoldable pub find_approved : Request → Disk → Option (String × Spoke)
    find_approved r d =
        first_of (if r.spoke_id == "" then none else get_approved_spoke_by_id r.spoke_id d) (
          first_of (get_approved_spoke_by_hostname r.hostname d) (
            if r.api_key == ""
            then none
            else get_approved_spoke_by_api_key r.api_key r.tenant_hint d))

    module _ ⦃json : JsonText⦄ ⦃digest : Digest⦄ ⦃commands : Codec Command⦄
        ⦃pending : PendingFormat⦄ where
      abbrev answer_or_wait : Given → Request → Option Answer → Task Answer
      answer_or_wait g r (some a) = done a
      answer_or_wait g r none = register_pending g r

      abbrev pub register_as : Given → Request → Option (String × Spoke) → Task Answer
      register_as g r (some (tenant_id, s)) = reregister g r tenant_id s
      register_as g r none = do approved ← try_psk g r; answer_or_wait g r approved

      -- A lookup by the hostname or the id always runs, and restores the tenants' file first.
      unfoldable pub register_spoke : ⦃uuids : Uuids⦄ → Given → RegisterPayload → Task Answer
      register_spoke g p = do
        spoke_id ← requested_id g p
        on_disk (write restore_missing)
        tenant_hint ← resolved_hint g p
        approved ← on_disk (look (find_approved (request p spoke_id tenant_hint)))
        register_as g (request p spoke_id tenant_hint) approved
