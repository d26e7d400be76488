-- ===== src/SpokeRoutes.antt =====
-- The routes that a spoke calls with its key (app/routers/spokes.py, `_auth_spoke`, `get_inbox` and
-- `get_spoke_monitored_items`).
pub mod Inbox
pub mod Registration
pub mod Reports
pub mod UsbDevices
pub mod Fleet
pub mod Updates
use webui_hub.Prelude.{
  ℕ, String, ◌≡◌, refl, Bool, true, false, not, ◌&&◌, ◌||◌, Option, none, some, List, [], ◌∷◌, ◌==◌,
  if◌then◌else◌, elem, keep,
}
use webui_hub.Json.{Json, Dict, str, arr, get}
use webui_hub.Disk.{Disk}
use webui_hub.Exec.{Exec, Result, ok, raised, http_error, return, reading, ◌>>=◌, ◌>>◌}
use webui_hub.Codec.{Codec}
use webui_hub.Models.{Tenant, Spoke, Command}
use webui_hub.Crypto.{Fernet, JsonText, decrypt_str}
use webui_hub.Store.Spokes.{get_spoke, is_approved}
use webui_hub.Store.Spokes.Format.{SpokeFormat, Instants}
use webui_hub.Store.Queue.{get_queued_commands}
use webui_hub.Store.Settings.{get_tenant_central_sites_config}
use webui_hub.Store.Payload.{sorted_set}
use webui_hub.Store.Usb.{dicts_of}
use webui_hub.Store.Push.{Digest, ensure_config_update_command}

abbrev is_right : String → Option String → Bool
is_right api_key none = false
is_right api_key (some t) = t == api_key

module _ ⦃fernet : Fernet⦄ where
  abbrev unlocks : String → Option String → Bool
  unlocks api_key none = false
  unlocks api_key (some e) = not (e == "") && is_right api_key (decrypt_str e)

  abbrev pub admitted : String → Option Spoke → Result Spoke
  admitted api_key none = raised (http_error 401)
  admitted api_key (some s) =
      if is_approved s && unlocks api_key s.api_key_enc then ok s else raised (http_error 401)

  module _ ⦃format : SpokeFormat⦄ ⦃times : Instants⦄ where
    unfoldable pub auth_spoke : String → String → String → Disk → Result Spoke
    auth_spoke tenant_id spoke_id api_key d = admitted api_key (get_spoke tenant_id spoke_id d)

    module _ ⦃json : JsonText⦄ ⦃digest : Digest⦄ ⦃commands : Codec Command⦄
        ⦃tenants : Codec Tenant⦄ where
      -- `_get_spoke_inbox`; the serialization of the commands is left to the caller.
      unfoldable pub get_spoke_inbox : String → ℕ → String → String → Exec (List Command)
      get_spoke_inbox new_id now tenant_id spoke_id = do
        ensure_config_update_command new_id now tenant_id spoke_id
        get_queued_commands now tenant_id spoke_id

      unfoldable pub get_inbox : String → ℕ → String → String → String → Exec (List Command)
      get_inbox new_id now tenant_id spoke_id api_key = do
        s ← reading (auth_spoke tenant_id spoke_id api_key)
        get_spoke_inbox new_id now tenant_id spoke_id

abbrev text_in : List String → Option Json → Bool
text_in names (some (str t)) = elem t names
text_in names _ = false

abbrev is_site : Option Json → Bool
is_site (some (str t)) = t == "site"
is_site _ = false

-- A site is kept where it is assigned by its identifier or its name, any other item is kept.
abbrev pub is_monitored : List String → Dict Json → Bool
is_monitored sites item =
    not (is_site (get "type" item))
    || (text_in sites (get "identifier" item) || text_in sites (get "name" item))

pub record MonitoredItems : Type 0 where
  pub items : List (Dict Json)
  pub has_sites : Bool
  pub assigned_sites : List String

abbrev items_for : List String → Dict Json → MonitoredItems
items_for [] cfg = record { items = []; has_sites = false; assigned_sites = [] }
items_for (site ∷ sites) cfg = record {
  items = keep (is_monitored (site ∷ sites)) (dicts_of (get "monitored_items" cfg));
  has_sites = true;
  assigned_sites = sorted_set (site ∷ sites);
}

module _ ⦃fernet : Fernet⦄ ⦃format : SpokeFormat⦄ ⦃times : Instants⦄ ⦃tenants : Codec Tenant⦄ where
  abbrev monitored_for : String → Disk → Result Spoke → Result MonitoredItems
  monitored_for tenant_id d (raised e) = raised e
  monitored_for tenant_id d (ok s) =
      ok (items_for s.assigned_sites (get_tenant_central_sites_config tenant_id d))

  unfoldable pub get_spoke_monitored_items : String → String → String → Disk → Result MonitoredItems
  get_spoke_monitored_items tenant_id spoke_id api_key d =
      monitored_for tenant_id d (auth_spoke tenant_id spoke_id api_key d)
