-- ===== src/Store/Spokes/Format.antt =====
-- How a spoke stands in `spokes.json`: its configuration only. pydantic's validation and dump are
-- parameters; `_migrate_assigned_site` (app/data_models.py) and the choice of the fields are the code's.
use webui_hub.Prelude.{
  ℕ, String, ◌≡◌, Bool, false, ◌||◌, Option, none, some, [], ◌∷◌, ◌==◌, if◌then◌else◌,
}
use webui_hub.Text.{strip}
use webui_hub.Json.{Json, obj, Fields, end, field}
use webui_hub.Models.{Spoke}

-- `_migrate_assigned_site`, on the values that validation gives the two fields.
unfoldable pub migrate_assigned_site : Spoke → Spoke
migrate_assigned_site s = elim s.assigned_sites [
  | [] ↦
      if strip s.assigned_site == ""
      then s
      else record s { assigned_sites = strip s.assigned_site ∷ [] }
  | _ ∷ _ ↦ s
]

-- `_SPOKE_STATE_FIELDS`
unfoldable pub is_state_field : String → Bool
is_state_field k = (k == "telemetry") || (k == "last_seen")

config_fields : Fields → Fields
unfolding is_state_field
config_fields end = end
config_fields (field k v fs) =
    let rest = config_fields fs in if is_state_field k then rest else field k v rest

-- `{k: v for k, v in d.items() if k in _SPOKE_CONFIG_FIELDS}`: a dump has the model's fields only.
unfoldable pub config_row : Json → Json
unfolding config_fields
config_row (obj fs) = obj (config_fields fs)
config_row j = j

-- The spoke with the defaults of the fields that are not saved.
abbrev pub without_state : Spoke → Spoke
without_state s = record s { last_seen = none; telemetry = [] }

pub record SpokeFormat : Type 0 where
  -- `Spoke(**row)`, its validator included; `none`: it raises
  pub validate : Json → Option Spoke
  -- `spoke.model_dump(mode="json")`
  pub dump : Spoke → Json
  pub validate-config_row :
      (s : Spoke) → validate (config_row (dump s)) ≡ some (migrate_assigned_site (without_state s))

-- `isoformat` and `fromisoformat` (`fromtimestamp` at a number): an instant that was written is read back.
pub record Instants : Type 0 where
  pub show : ℕ → String
  -- `none`: no instant, or the text is malformed
  pub read : Json → Option ℕ
  pub read-show : (t : ℕ) → read (Json.str (show t)) ≡ some t
  pub shown : (t : ℕ) → (show t == "") ≡ false
