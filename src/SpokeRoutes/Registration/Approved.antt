-- ===== src/SpokeRoutes/Registration/Approved.antt =====
-- The registration of a spoke that is approved already (app/routers/spokes.py, `register_spoke`,
-- from `if approved:` on).
use webui_hub.Prelude.{
  String, Bool, true, false, not, ◌&&◌, ◌||◌, Option, none, some, [], ◌∷◌, ◌==◌, ◌+◌, if◌then◌else◌,
}
use webui_hub.Json.{Json, Dict, str, bool, same_dict}
use webui_hub.Disk.{Disk}
use webui_hub.Exec.{http_error, look, write}
use webui_hub.Codec.{Codec}
use webui_hub.Crypto.{Fernet, JsonText, encrypt_str, decrypt_str}
use webui_hub.Hub.{Task, done, fail, on_disk, when, ◌>>=◌, ◌>>◌}
use webui_hub.Models.{Tenant, Spoke, Command}
use webui_hub.Store.Tenants.{get_tenant}
use webui_hub.Store.Spokes.{rekey_spoke, save_spoke}
use webui_hub.Store.Spokes.Format.{SpokeFormat, Instants}
use webui_hub.Store.Pending.{PendingFormat}
use webui_hub.Store.Push.{Digest, ensure_config_update_command, is_pending}
use webui_hub.SpokeRoutes.Registration.Names.{
  Given, Answer, Request, approved_as, reg_log_append, ensure_name_available_for_tenant,
}

abbrev or_empty : Option String → String
or_empty none = ""
or_empty (some t) = t

module _ ⦃fernet : Fernet⦄ where
  -- `decrypt_str(spoke.api_key_enc)`; empty where there is no key or it cannot be decrypted.
  abbrev stored_in : Option String → String
  stored_in none = ""
  stored_in (some e) = if e == "" then "" else or_empty (decrypt_str e)

  unfoldable pub stored_key : Spoke → String
  stored_key s = stored_in s.api_key_enc

  -- The spoke's own key, or a new one where it has none.
  abbrev pub key_for : Given → Spoke → String
  key_for g s = if stored_key s == "" then g.new_key else stored_key s

  abbrev pub with_key : Given → String → Spoke → Spoke
  with_key g key s =
      if key == "" then record s { api_key_enc = some (encrypt_str g.new_key) } else s

abbrev pub is_refused : String → String → Bool
is_refused key given = not (key == "") && (not (given == "") && not (given == key))

-- The request's hostname, label and name.
abbrev pub named : Request → Spoke → Spoke
named r s = record s {
  hostname = r.hostname;
  label = if r.label == "" then s.label else r.label;
  spoke_name = r.spoke_name;
}

abbrev pub renames : Request → Spoke → Bool
renames r s =
    not (s.hostname == r.hostname)
    || (not (r.label == "") && not (s.label == r.label) || not (s.spoke_name == r.spoke_name))

abbrev pub is_filled : Dict Json → Bool
is_filled [] = false
is_filled (e ∷ d) = true

abbrev pub reconfigures : Request → Spoke → Bool
reconfigures r s = is_filled r.config && not (same_dict s.seed_config r.config)

abbrev is_managed : Option Tenant → Bool
is_managed none = false
is_managed (some t) = t.hub_config_enabled

-- Without the hub's management, the spoke's own configuration counts.
abbrev pub configured : Bool → Dict Json → Spoke → Spoke
configured true config s = record s { seed_config = config }
configured false config s = record s {
  seed_config = config;
  config = config;
  config_version = s.config_version + 1;
}

module _ ⦃tenants : Codec Tenant⦄ where
  abbrev reconfigured : Request → String → Spoke → Disk → Spoke
  reconfigured r tenant_id s d =
      if reconfigures r s then configured (is_managed (get_tenant tenant_id d)) r.config s else s

module _ ⦃format : SpokeFormat⦄ ⦃times : Instants⦄ where
  -- The spoke under the id that it asks for.
  unfoldable pub take_id : Request → String → Spoke → Task Spoke
  take_id r tenant_id s =
      if not (r.spoke_id == "") && not (s.id == r.spoke_id)
      then (do
        renamed ← on_disk (rekey_spoke tenant_id s.id r.spoke_id)
        done (record s { id = r.spoke_id }))
      else done s

  module _ ⦃fernet : Fernet⦄ ⦃tenants : Codec Tenant⦄ ⦃pending : PendingFormat⦄ where
    abbrev entry_of : Given → Request → String → Spoke → Dict Json
    entry_of g r tenant_id s =
        ("hostname", str r.hostname)
        ∷ ("spoke_name", str r.spoke_name)
        ∷ ("spoke_id", str s.id)
        ∷ ("tenant_id", str tenant_id)
        ∷ ("ip", str g.client_ip)
        ∷ []

    -- The check of the name, then of the key.
    unfoldable pub check_identity : Given → Request → String → Spoke → Task (Unit {0})
    check_identity g r tenant_id s = do
      when (not (s.spoke_name == r.spoke_name)) (
          ensure_name_available_for_tenant g r.spoke_name tenant_id r.hostname s.id
            (("spoke_id", str s.id) ∷ ("ip", str g.client_ip) ∷ []))
      when (is_refused (stored_key s) r.api_key) (do
        reg_log_append g "re_register_key_mismatch" (entry_of g r tenant_id s)
        fail (http_error 401))

    module _ ⦃json : JsonText⦄ ⦃digest : Digest⦄ ⦃commands : Codec Command⦄ where
      -- The spoke is saved if anything changed, and gets the push that is due.
      unfoldable pub settle : Given → String → Bool → Spoke → Task (Unit {0})
      settle g tenant_id changed s = do
        when changed (on_disk (write (save_spoke s)))
        when (is_pending s)
            (on_disk (ensure_config_update_command g.command_id g.now tenant_id s.id))

      unfoldable pub reregister : Given → Request → String → Spoke → Task Answer
      reregister g r tenant_id found = do
        s ← take_id r tenant_id found
        check_identity g r tenant_id s
        updated ← on_disk (look (reconfigured r tenant_id (with_key g (stored_key s) (named r s))))
        settle g tenant_id (renames r s || ((stored_key s == "") || reconfigures r s)) updated
        reg_log_append g "already_approved" (
            ("hostname", str r.hostname)
            ∷ ("spoke_name", str r.spoke_name)
            ∷ ("spoke_id", str s.id)
            ∷ ("tenant_id", str tenant_id)
            ∷ ("ip", str g.client_ip)
            ∷ ("regenerated_api_key", bool (stored_key s == ""))
            ∷ [])
        done (approved_as s.id tenant_id (key_for g s))
