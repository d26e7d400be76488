-- ===== src/Webhook.antt =====
-- The receiver of the alerts of Aruba Central (app/routers/webhook.py).
use webui_hub.Prelude.{
  String, Bool, false, ◌&&◌, ◌||◌, Option, none, some, List, [], ◌∷◌, ◌++◌, ◌==◌, if◌then◌else◌,
  any,
}
use webui_hub.Text.{strip, lower}
use webui_hub.Json.{Json, Dict, null, str, arr, obj, get, put, to_fields, of_fields}
use webui_hub.Disk.{Disk}
use webui_hub.Exec.{Result, ok, raised, http_error}
use webui_hub.Codec.{Codec}
use webui_hub.Crypto.{Fernet, JsonText, decrypt_dict}
use webui_hub.Models.{Tenant}
use webui_hub.Store.Tenants.{get_tenant}
use webui_hub.Store.Payload.{or_json}
use webui_hub.Store.Usb.{dicts_of, items_of}
use webui_hub.CommandRoutes.{joined}

abbrev or_else : String → String → String
or_else t other = if t == "" then other else t

abbrev dict_in : Option Json → Dict Json
dict_in (some (obj fs)) = of_fields fs
dict_in _ = []

abbrev or_null : Option Json → Json
or_null none = null
or_null (some j) = j

-- The values that are dicts.
unfoldable pub dict_values : Dict Json → List (Dict Json)
dict_values [] = []
dict_values ((k, obj fs) ∷ d) = of_fields fs ∷ dict_values d
dict_values (e ∷ d) = dict_values d

module _ ⦃json : JsonText⦄ where
  -- `str(payload.get(key) or "").strip()`
  abbrev field_text : String → Dict Json → String
  field_text key d = strip (json.str_of (or_json (get key d) (str "")))

  abbrev severity_status : String → String
  severity_status severity =
      if (severity == "critical") || (severity == "major")
      then "red"
      else if severity == "minor"
      then "yellow"
      else "green"

  unfoldable pub webhook_status_from_payload : Dict Json → String
  webhook_status_from_payload payload =
      if lower (field_text "state" payload) == "cleared"
      then "green"
      else severity_status (lower (field_text "severity" payload))

  -- The site, the check and the source of a finding.
  abbrev finding_key : Dict Json → String × String × String
  finding_key item = (field_text "site" item, field_text "check" item, field_text "source" item)

  abbrev same_key : String × String × String → String × String × String → Bool
  same_key a b = (a.0 == b.0) && ((a.1 == b.1) && (a.2 == b.2))

  -- Each finding whose key is new is put behind the others.
  unfoldable pub add_findings : List (Dict Json) → List (Dict Json) → List (Dict Json)
  add_findings merged [] = merged
  add_findings merged (item ∷ items) =
      let kept = add_findings merged items in
      let added = add_findings (merged ++ item ∷ []) items in
      if any (λ m. same_key (finding_key m) (finding_key item)) merged then kept else added

  unfoldable pub merge_findings : Option Json → Dict Json → List (Dict Json)
  merge_findings current webhook_findings =
      add_findings (dicts_of current) (dict_values webhook_findings)

  abbrev site_name_of : Dict Json → Dict Json → String
  site_name_of site_id_map payload =
      let site_id = field_text "siteId" payload in
      or_else
        (strip (json.str_of (or_json (get site_id site_id_map) (str (or_else site_id "unknown")))))
        "unknown"

  abbrev check_name_of : Dict Json → String
  check_name_of payload =
      or_else
        (strip (
          json.str_of (
            or_json (get "name" payload)
              (or_json (get "alertId" payload) (or_json (get "id" payload) (str "alert"))))))
        "alert"

  abbrev pub finding_payload : Dict Json → Dict Json → Dict Json
  finding_payload tenant_state payload =
      ("site", str (site_name_of (dict_in (get "site_id_map" tenant_state)) payload))
      ∷ ("check", str (check_name_of payload))
      ∷ ("status", str (webhook_status_from_payload payload))
      ∷ ("source", str "alert")
      ∷ ("alert_id", str (field_text "alertId" payload))
      ∷ ("state", str (field_text "state" payload))
      ∷ ("time", or_null (get "time" payload))
      ∷ ("raw", obj (to_fields payload))
      ∷ []

  abbrev cache_key : Dict Json → String
  cache_key payload =
      strip (json.str_of (or_json (get "alertId" payload) (or_json (get "id" payload) (str ""))))

  -- The tenant's state with the finding, under the id of its alert.
  abbrev pub with_finding : Dict Json → Dict Json → Dict Json
  with_finding tenant_state payload =
      let findings =
        put (cache_key payload) (obj (to_fields (finding_payload tenant_state payload)))
          (dict_in (get "webhook_findings" tenant_state)) in
      put "findings" (arr (items_of (merge_findings (get "findings" tenant_state) findings)))
        (put "webhook_findings" (obj (to_fields findings)) tenant_state)

  abbrev received : Dict Json → Option Json → Result (Dict Json)
  received tenant_state (some (obj fs)) =
      if cache_key (of_fields fs) == ""
      then raised (http_error 400)
      else ok (with_finding tenant_state (of_fields fs))
  received tenant_state _ = raised (http_error 400)

  abbrev is_bearer : String → Option String → Bool
  is_bearer key none = false
  is_bearer key (some given) = given == joined "Bearer " key

  abbrev if_configured :
      Dict Json → Option String → Option Json → Option (Dict Json) → Result (Dict Json)
  if_configured tenant_state authorization payload none = raised (http_error 500)
  if_configured tenant_state authorization payload (some cfg) =
      if field_text "webhook_api_key" cfg == ""
      then raised (http_error 404)
      else if is_bearer (field_text "webhook_api_key" cfg) authorization
      then received tenant_state payload
      else raised (http_error 401)

  module _ ⦃fernet : Fernet⦄ where
    abbrev decrypted : Dict Json → Option String → Option Json → Option String → Result (Dict Json)
    decrypted tenant_state authorization payload none = raised (http_error 404)
    decrypted tenant_state authorization payload (some enc) =
        if enc == ""
        then raised (http_error 404)
        else if_configured tenant_state authorization payload (decrypt_dict enc)

    abbrev for_tenant : Dict Json → Option String → Option Json → Option Tenant → Result (Dict Json)
    for_tenant tenant_state authorization payload none = raised (http_error 404)
    for_tenant tenant_state authorization payload (some t) =
        decrypted tenant_state authorization payload t.aruba_config_enc

    -- The state of the tenant that is set and broadcast, from the one that is cached. The payload is
    -- missing where it is no JSON.
    unfoldable pub receive_central_webhook :
        ⦃tenants : Codec Tenant⦄
        → String
        → Option String
        → Option Json
        → Dict Json
        → Disk
        → Result (Dict Json)
    receive_central_webhook tenant_id authorization payload tenant_state d =
        for_tenant tenant_state authorization payload (get_tenant tenant_id d)
