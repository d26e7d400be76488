-- ===== src/Store/Push/Diag.antt =====
-- The diagnosis of a spoke's configuration (app/store.py, `get_spoke_config_diag`).
pub mod Drift
use webui_hub.Prelude.{
  ℕ, String, ◌≡◌, refl, ap, Bool, true, false, not, ◌&&◌, ◌||◌, Option, none, some, List, [], ◌∷◌,
  ◌==◌, if◌then◌else◌, elem, keep, length, arith, eq_iff, Option-cases, Bool-cases, inl, inr, ltb,
  ◌+◌,
}
use webui_hub.Json.{Json, Dict, Fields, field, end, bool, num, literal, arr, obj, str, null, get}
use webui_hub.Disk.{Disk}
use webui_hub.Exec.{Result, ok, raised}
use webui_hub.Codec.{Codec}
use webui_hub.Models.{Tenant, Spoke, Command}
use webui_hub.Crypto.{Fernet, JsonText}
use webui_hub.Store.Tenants.{get_tenant, restore_missing}
use webui_hub.Store.Spokes.{get_spoke, is_approved}
use webui_hub.Store.Spokes.Format.{SpokeFormat, Instants}
use webui_hub.Store.Queue.{load_queue, active}
use webui_hub.Store.Usb.{get_global_usb_vidpids, effective_usb_vidpids_from}
use webui_hub.Store.Payload.Whole.{build_spoke_config_payload}
use webui_hub.Store.Push.{
  Digest, authoritative_config_hash, payload_version, is_pending, same_hash,
  check_and_fix_config_drift,
}

abbrev pub secret_keys : List String
secret_keys =
    "relay_api_key" ∷ "client_secret" ∷ "access_token" ∷ "refresh_token" ∷ "smtp_password"
    ∷ "teams_webhook_url" ∷ "proxmox_token" ∷ []

-- `{dk: ("***" if dk in _SECRET_KEYS else dv) for dk, dv in v.items()}`
mask_fields : Fields → Fields
mask_fields end = end
mask_fields (field k v fs) = field k (if elem k secret_keys then str "***" else v) (mask_fields fs)

unfoldable pub mask_value : Json → Json
unfolding mask_fields
mask_value (obj fs) = obj (mask_fields fs)
mask_value v = v

abbrev pub masked_entry : String → Json → Json
masked_entry k v = if elem k secret_keys then str "***" else mask_value v

-- `safe_payload`
unfoldable pub safe_payload : Dict Json → Dict Json
safe_payload [] = []
safe_payload ((k, v) ∷ payload) = (k, masked_entry k v) ∷ safe_payload payload

pub record PendingConfig : Type 0 where
  pub id : String
  pub type : String
  pub status : String
  pub config_version : ℕ
  pub usb_vidpids_in_payload : Bool
  pub created_at : ℕ
  pub expires_at : ℕ

pub record SpokeConfigDiag : Type 0 where
  pub spoke_id : String
  pub spoke_hostname : String
  pub status : String
  pub config_version : ℕ
  pub applied_config_version : ℕ
  pub push_pending : Bool
  pub last_pushed_config_hash : Option String
  pub current_authoritative_hash : String
  pub config_in_sync : Bool
  pub global_usb_cert_count : ℕ
  pub effective_usb_cert_count : ℕ
  pub effective_usb_certs : List (Dict Json)
  pub usb_vidpids_in_next_payload : Bool
  pub pending_config_commands : List PendingConfig
  pub config_payload_preview : Dict Json

abbrev is_set : Option Json → Bool
is_set none = false
is_set (some null) = false
is_set (some j) = true

abbrev is_present : Option Json → Bool
is_present none = false
is_present (some j) = true

abbrev pub field_value : String → Fields → Option Json
field_value key end = none
field_value key (field k v fs) = let rest = field_value key fs in if k == key then some v else rest

abbrev names_usb : Option Json → Bool
names_usb (some (obj fs)) = is_set (field_value "usb_vidpids" fs)
names_usb _ = false

abbrev is_config_command : Command → Bool
is_config_command c = (c.type == "config_update") || (c.type == "config_clear")

module _ ⦃fernet : Fernet⦄ ⦃json : JsonText⦄ where
  abbrev pending_config : Command → ℕ → PendingConfig
  pending_config c version = record {
    id = c.id;
    type = c.type;
    status = c.status;
    config_version = version;
    usb_vidpids_in_payload = names_usb (get "config" c.payload);
    created_at = c.created_at;
    expires_at = c.expires_at;
  }

  abbrev add_config : Command → Result ℕ → Result (List PendingConfig) → Result (List PendingConfig)
  add_config c (raised e) rest = raised e
  add_config c (ok n) (raised e) = raised e
  add_config c (ok n) (ok rest) = ok (pending_config c n ∷ rest)

  unfoldable pub pending_configs : List Command → Result (List PendingConfig)
  pending_configs [] = ok []
  pending_configs (c ∷ cs) = add_config c (payload_version c.payload) (pending_configs cs)

module _ ⦃fernet : Fernet⦄ ⦃json : JsonText⦄ ⦃digest : Digest⦄ ⦃format : SpokeFormat⦄
    ⦃times : Instants⦄ ⦃commands : Codec Command⦄ ⦃tenants : Codec Tenant⦄ where
  abbrev pub diag_of :
      Spoke → Option Tenant → Dict Json → List (Dict Json) → List PendingConfig → SpokeConfigDiag
  diag_of s tenant payload global_devices pending = record {
    spoke_id = s.id;
    spoke_hostname = s.hostname;
    status = s.status;
    config_version = s.config_version;
    applied_config_version = s.applied_config_version;
    push_pending = ltb s.applied_config_version s.config_version;
    last_pushed_config_hash = s.last_pushed_config_hash;
    current_authoritative_hash = authoritative_config_hash tenant payload;
    config_in_sync = same_hash s.last_pushed_config_hash (authoritative_config_hash tenant payload);
    global_usb_cert_count = length global_devices;
    effective_usb_cert_count = length (effective_usb_vidpids_from global_devices tenant);
    effective_usb_certs = effective_usb_vidpids_from global_devices tenant;
    usb_vidpids_in_next_payload = is_present (get "usb_vidpids" payload);
    pending_config_commands = pending;
    config_payload_preview = safe_payload payload;
  }

  abbrev pub with_configs :
      Spoke → Option Tenant → Disk → Result (List PendingConfig) → Result (Option SpokeConfigDiag)
  with_configs s tenant d (raised e) = raised e
  with_configs s tenant d (ok pending) = ok (
      some
        (diag_of s tenant (build_spoke_config_payload tenant d) (get_global_usb_vidpids d) pending))

  abbrev pub configs_of : ℕ → Result (List Command) → Result (List PendingConfig)
  configs_of now (raised e) = raised e
  configs_of now (ok cmds) = pending_configs (keep is_config_command (active now cmds))

  abbrev pub diag_for : ℕ → String → String → Option Spoke → Disk → Result (Option SpokeConfigDiag)
  diag_for now tenant_id spoke_id none d = ok none
  diag_for now tenant_id spoke_id (some s) d =
      with_configs s (get_tenant tenant_id d) d (configs_of now (load_queue tenant_id spoke_id d))

  -- `none`: the answer that the spoke was not found.
  unfoldable pub get_spoke_config_diag :
      ℕ → String → String → Disk → Result (Option SpokeConfigDiag)
  get_spoke_config_diag now tenant_id spoke_id d =
      diag_for now tenant_id spoke_id (get_spoke tenant_id spoke_id d) (restore_missing d)

abbrev pub starred : Option Json → Option Json
starred none = none
starred (some v) = some (str "***")

if-some : (b : Bool) (v w : Json) → some (if b then v else w) ≡ (if b then some v else some w)
if-some true v w = refl
if-some false v w = refl

field_value-mask_fields :
    (j : String) (fs : Fields)
    → field_value j (mask_fields fs)
      ≡ (if elem j secret_keys then starred (field_value j fs) else field_value j fs)
unfolding mask_fields
field_value-mask_fields j end = elim (Bool-cases (elem j secret_keys)) [
  | inl e ↦ rw e refl
  | inr e ↦ rw e refl
]
field_value-mask_fields j (field k v fs) = elim (Bool-cases (k == j)) [
  | inl e ↦ rw e (rw ((eq_iff k j).0 e) (if-some (elem j secret_keys) (str "***") v))
  | inr e ↦ rw e (field_value-mask_fields j fs)
]

-- What is shown of a value: all of it, but for the secret keys of an object.
abbrev pub Shown : Json → Json → Type 0
Shown (obj fs) w =
    (gs : Fields) × (w ≡ obj gs)
    × ((j : String)
        → field_value j gs
          ≡ (if elem j secret_keys then starred (field_value j fs) else field_value j fs))
Shown v w = w ≡ v

mask_value-Shown : (v : Json) → Shown v (mask_value v)
unfolding mask_value
mask_value-Shown null = refl
mask_value-Shown (bool b) = refl
mask_value-Shown (num n) = refl
mask_value-Shown (literal t) = refl
mask_value-Shown (str t) = refl
mask_value-Shown (arr js) = refl
mask_value-Shown (obj fs) = (mask_fields fs, refl, λ j. field_value-mask_fields j fs)

-- What is shown of the value of a key, which may be secret.
abbrev pub ShownAs : Bool → Option Json → Option Json → Type 0
ShownAs true o shown = shown ≡ starred o
ShownAs false none shown = shown ≡ none
ShownAs false (some v) shown = (w : Json) × (shown ≡ some w) × Shown v w

entry-ShownAs :
    (secret : Bool) (v : Json)
    → ShownAs secret (some v) (some (if secret then str "***" else mask_value v))
entry-ShownAs true v = refl
entry-ShownAs false v = (mask_value v, refl, mask_value-Shown v)

none-ShownAs : (secret : Bool) → ShownAs secret none none
none-ShownAs true = refl
none-ShownAs false = refl

-- The preview has the keys of the payload. Under a secret key it shows stars, under another key the
-- value itself, but an object with stars under the secret keys of its own, and with its other
-- fields as they are.
pub get-safe_payload :
    (k : String) (payload : Dict Json)
    → ShownAs (elem k secret_keys) (get k payload) (get k (safe_payload payload))
unfolding safe_payload get
get-safe_payload k [] = none-ShownAs (elem k secret_keys)
get-safe_payload k ((j, v) ∷ payload) = elim (Bool-cases (j == k)) [
  | inl e ↦ rw e (rw ((eq_iff j k).0 e) (entry-ShownAs (elem k secret_keys) v))
  | inr e ↦ rw e (get-safe_payload k payload)
]
