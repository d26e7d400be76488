-- ===== src/Store/Push.antt =====
-- Pushing the configuration to a spoke (app/store.py, lines 757 to 775 and 1151 to 1240 and 1318 to
-- 1340): the version that is wanted, the version that is applied, and the queued `config_update`.
pub mod Once
pub mod Converge
pub mod Diag
use webui_hub.Prelude.{
  ℕ, String, ◌≡◌, refl, Bool, true, false, ◌&&◌, ◌||◌, not, Option, none, some, List, [], ◌∷◌, ◌++◌,
  ◌==◌, ◌+◌, ◌*◌, map, if◌then◌else◌, leb, ltb, eqb, keep, any,
}
use webui_hub.Json.{Json, Dict, num, str, null, obj, get, to_fields}
use webui_hub.Disk.{Disk}
use webui_hub.Exec.{
  Exec, Result, ok, raised, return, reading, look, write, value_error, ◌>>=◌, ◌>>◌,
}
use webui_hub.Codec.{Codec}
use webui_hub.Models.{Tenant, Spoke, Command, new_command, hour}
use webui_hub.Crypto.{Fernet, JsonText}
use webui_hub.Store.Tenants.{get_tenant, restore_missing}
use webui_hub.Store.Spokes.{get_spoke, save_spoke, is_approved}
use webui_hub.Store.Spokes.Format.{SpokeFormat, Instants}
use webui_hub.Store.Queue.{load_queue, save_queue}
use webui_hub.Store.Payload.{or_json, get_default}
use webui_hub.Store.Payload.Whole.{build_spoke_config_payload}

-- `hashlib.sha256(json.dumps(auth, sort_keys=True)).hexdigest()[:16]`
pub record Digest : Type 0 where
  pub digest : Dict Json → String

abbrev is_null : Json → Bool
is_null null = true
is_null _ = false

abbrev authoritative : Option Tenant → Dict Json → Dict Json
authoritative none payload = ("usb_vidpids", get_default "usb_vidpids" payload null) ∷ []
authoritative (some t) payload =
    if t.hub_config_enabled
    then keep (λ entry. not (is_null entry.1)) payload
    else ("usb_vidpids", get_default "usb_vidpids" payload null) ∷ []

module _ ⦃digest : Digest⦄ where
  -- `_authoritative_config_hash(tenant, payload)`
  unfoldable pub authoritative_config_hash : Option Tenant → Dict Json → String
  authoritative_config_hash tenant payload = digest.digest (authoritative tenant payload)

abbrev pub is_pending : Spoke → Bool
is_pending s = ltb s.applied_config_version s.config_version

abbrev pub is_wanted : Command → Bool
is_wanted c =
    (c.type == "config_update")
    && ((c.status == "queued") || ((c.status == "delivered") || (c.status == "executed")))

module _ ⦃fernet : Fernet⦄ ⦃json : JsonText⦄ where
  abbrev int_or_raise : Option ℕ → Result ℕ
  int_or_raise none = raised value_error
  int_or_raise (some n) = ok n

  -- `int(payload.get("config_version") or payload.get("__config_version", 0) or 0)`
  unfoldable pub payload_version : Dict Json → Result ℕ
  payload_version payload = int_or_raise (
      json.int_of
        (or_json (get "config_version" payload) (or_json (get "__config_version" payload) (num 0))))

  abbrev found_or : Result ℕ → ℕ → Command → Result Bool → Result Bool
  found_or (raised e) version c later = raised e
  found_or (ok v) version c later = if is_wanted c && eqb v version then ok true else later

  -- Is a push of this version in the queue? The version of each command is read before its type.
  unfoldable pub has_push : ℕ → List Command → Result Bool
  has_push version [] = ok false
  has_push version (c ∷ cs) = found_or (payload_version c.payload) version c (has_push version cs)

abbrev pub push_payload : Dict Json → ℕ → Dict Json
push_payload config version =
    ("command", str "config_update")
    ∷ ("config", obj (to_fields config))
    ∷ ("config_version", num version)
    ∷ ("__config_version", num version)
    ∷ []

module _ ⦃fernet : Fernet⦄ ⦃json : JsonText⦄ ⦃digest : Digest⦄ ⦃format : SpokeFormat⦄
    ⦃times : Instants⦄ ⦃commands : Codec Command⦄ ⦃tenants : Codec Tenant⦄ where
  -- The part of `ensure_config_update_command` that queues the push.
  unfoldable pub push_config : String → ℕ → String → String → Spoke → List Command → Exec (Unit {0})
  push_config new_id now tenant_id spoke_id s cmds = do
    write restore_missing
    tenant ← look (get_tenant tenant_id)
    payload ← look (build_spoke_config_payload tenant)
    write (
        save_queue tenant_id spoke_id (
          cmds
          ++ new_command new_id now spoke_id tenant_id "spoke" "config_update"
              (push_payload payload s.config_version) (now + 24 * hour)
            ∷ []))
    write (
        save_spoke
          (record s { last_pushed_config_hash = some (authoritative_config_hash tenant payload) }))

  abbrev ensure_for : String → ℕ → String → String → Option Spoke → Exec (Unit {0})
  ensure_for new_id now tenant_id spoke_id none = return tt
  ensure_for new_id now tenant_id spoke_id (some s) =
      if not (is_approved s) || leb s.config_version s.applied_config_version then return tt else do
        cmds ← reading (load_queue tenant_id spoke_id)
        there ← reading (λ d. has_push s.config_version cmds)
        if there then return tt else push_config new_id now tenant_id spoke_id s cmds

  unfoldable pub ensure_config_update_command : String → ℕ → String → String → Exec (Unit {0})
  ensure_config_update_command new_id now tenant_id spoke_id = do
    found ← look (get_spoke tenant_id spoke_id)
    ensure_for new_id now tenant_id spoke_id found

  abbrev same_hash : Option String → String → Bool
  same_hash none h = false
  same_hash (some g) h = g == h

  abbrev fix_drift : String → Spoke → Option Tenant → Exec Bool
  fix_drift tenant_id s none = return false
  fix_drift tenant_id s (some t) = do
    payload ← look (build_spoke_config_payload (some t))
    if same_hash s.last_pushed_config_hash (authoritative_config_hash (some t) payload)
        then return false
        else do
          write (save_spoke (record s { config_version = s.applied_config_version + 1 }))
          return true

  abbrev drift_for : String → Option Spoke → Exec Bool
  drift_for tenant_id none = return false
  drift_for tenant_id (some s) = if not (is_approved s) || is_pending s then return false else do
    write restore_missing
    tenant ← look (get_tenant tenant_id)
    fix_drift tenant_id s tenant

  unfoldable pub check_and_fix_config_drift : String → String → Exec Bool
  check_and_fix_config_drift tenant_id spoke_id = do
    found ← look (get_spoke tenant_id spoke_id)
    drift_for tenant_id found

  abbrev is_clear_waiting : Command → Bool
  is_clear_waiting c =
      (c.type == "config_clear") && ((c.status == "queued") || (c.status == "delivered"))

  abbrev clear_for : String → ℕ → String → String → Option Spoke → Exec (Unit {0})
  clear_for new_id now tenant_id spoke_id none = return tt
  clear_for new_id now tenant_id spoke_id (some s) = if not (is_approved s) then return tt else do
    cmds ← reading (load_queue tenant_id spoke_id)
    if any is_clear_waiting cmds
        then return tt
        else write (
            save_queue tenant_id spoke_id (
              cmds
              ++ new_command new_id now spoke_id tenant_id "spoke" "config_clear"
                  (("command", str "config_clear") ∷ []) (now + 24 * hour)
                ∷ []))

  unfoldable pub ensure_config_clear_command : String → ℕ → String → String → Exec (Unit {0})
  ensure_config_clear_command new_id now tenant_id spoke_id = do
    found ← look (get_spoke tenant_id spoke_id)
    clear_for new_id now tenant_id spoke_id found
