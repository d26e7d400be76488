-- ===== src/Store/Payload/Whole.antt =====
-- The whole payload of a `config_update` (app/store.py, lines 1041 to 1148).
use webui_hub.Prelude.{String, Option, none, some, [], ◌∷◌, ◌==◌, if◌then◌else◌}
use webui_hub.Text.{lower}
use webui_hub.Json.{Json, Dict, nil, null, num, str, arr, obj, get, put, to_fields}
use webui_hub.Disk.{Disk}
use webui_hub.Models.{Tenant}
use webui_hub.Crypto.{Fernet, JsonText}
use webui_hub.Store.Payload.{
  processing_mode, or_json, get_default, texts, split_commas, enc_of, stripped, hub_core_config,
  hub_github_config, hub_conf_overrides,
}

-- `d.update(e)`
unfoldable pub update : Dict Json → Dict Json → Dict Json
update d [] = d
update d ((k, v) ∷ e) = update (put k v d) e

abbrev dict : Dict Json → Json
dict d = obj (to_fields d)

abbrev text_at : String → Dict Json → Json
text_at key cfg = get_default key cfg (str "")

abbrev blank_central : Json
blank_central = dict (
    ("url", str "")
    ∷ ("client_id", str "")
    ∷ ("customer_id", str "")
    ∷ ("workspace_id", str "")
    ∷ ("client_secret", str "")
    ∷ [])

abbrev blank_classic : Json
blank_classic = dict (("url", str "") ∷ ("username", str "") ∷ [])

module _ ⦃fernet : Fernet⦄ ⦃json : JsonText⦄ where
  abbrev api_version : Dict Json → String
  api_version cfg = lower (stripped (or_json (get "api_version" cfg) (str "classic")))

  abbrev central_api : Dict Json → Json
  central_api cfg =
      if api_version cfg == "new_central"
      then dict (
          ("mode", str "central")
          ∷ ("classic", blank_classic)
          ∷ (
            "central",
            dict (
                ("url", text_at "cluster_url" cfg)
                ∷ ("client_id", text_at "client_id" cfg)
                ∷ ("customer_id", text_at "customer_id" cfg)
                ∷ ("workspace_id", text_at "workspace_id" cfg)
                ∷ ("client_secret", text_at "client_secret" cfg)
                ∷ []),
          )
          ∷ [])
      else dict (
          ("mode", str "classic")
          ∷ (
            "classic",
            dict (
                ("url", text_at "cluster_url" cfg)
                ∷ ("username", text_at "username" cfg)
                ∷ ("password", text_at "password" cfg)
                ∷ []),
          )
          ∷ ("central", blank_central)
          ∷ [])

  abbrev central_config : Dict Json → Json
  central_config cfg = dict (
      ("api_version", str (api_version cfg))
      ∷ ("cluster_url", text_at "cluster_url" cfg)
      ∷ ("client_id", text_at "client_id" cfg)
      ∷ ("client_secret", text_at "client_secret" cfg)
      ∷ ("customer_id", text_at "customer_id" cfg)
      ∷ ("workspace_id", text_at "workspace_id" cfg)
      ∷ ("access_token", text_at "access_token" cfg)
      ∷ ("refresh_token", text_at "refresh_token" cfg)
      ∷ [])

  abbrev both_central : Option (Dict Json) → Option (Json × Json)
  both_central none = none
  both_central (some cfg) = some (central_api cfg, central_config cfg)

  -- `_hub_central_config`; its two results are `None` together.
  unfoldable pub hub_central_config : Option Tenant → Option (Json × Json)
  hub_central_config tenant = both_central (enc_of (λ t. t.aruba_config_enc) tenant)

  abbrev to_emails : Json → Json
  to_emails (str t) = arr (texts (split_commas "" t))
  to_emails j = j

  abbrev notification_config : Option (Dict Json) → Dict Json
  notification_config none = []
  notification_config (some cfg) =
      (
        "teams_webhook_url",
        or_json (get "teams_webhook_url" cfg) (or_json (get "teams_webhook" cfg) (str "")),
      )
      ∷ ("smtp_host", text_at "smtp_host" cfg)
      ∷ ("smtp_port", get_default "smtp_port" cfg (num 587))
      ∷ ("smtp_user", text_at "smtp_user" cfg)
      ∷ (
        "smtp_password",
        or_json (get "smtp_password" cfg) (or_json (get "smtp_pass" cfg) (str "")),
      )
      ∷ ("smtp_from", text_at "from_email" cfg)
      ∷ ("smtp_to", to_emails (or_json (get "to_emails" cfg) (arr nil)))
      ∷ []

  -- `_hub_notification_config`
  unfoldable pub hub_notification_config : Option Tenant → Dict Json
  hub_notification_config tenant =
      notification_config (enc_of (λ t. t.notification_config_enc) tenant)

  abbrev blank_central_config : Json
  blank_central_config = dict (
      ("api_version", str "classic")
      ∷ ("cluster_url", str "")
      ∷ ("client_id", str "")
      ∷ ("client_secret", str "")
      ∷ ("customer_id", str "")
      ∷ ("workspace_id", str "")
      ∷ ("access_token", str "")
      ∷ ("refresh_token", str "")
      ∷ [])

  abbrev blank_central_api : Json
  blank_central_api =
      dict (("mode", str "classic") ∷ ("classic", blank_classic) ∷ ("central", blank_central) ∷ [])

  abbrev central_fields : Option (Json × Json) → Dict Json
  central_fields none =
      ("central_api", blank_central_api) ∷ ("central_config", blank_central_config) ∷ []
  central_fields (some (api, config)) = ("central_api", api) ∷ ("central_config", config) ∷ []

  abbrev if_distributed : Option Tenant → String → Json → Json
  if_distributed tenant key j = if processing_mode tenant key == "distributed" then j else null

  -- `_build_spoke_config_payload`
  unfoldable pub build_spoke_config_payload : Option Tenant → Disk → Dict Json
  unfolding update
  build_spoke_config_payload tenant d =
      let notifications = hub_notification_config tenant in
      let email : String → String × Json =
        λ key. (key, if_distributed tenant "email" (get_default key notifications null)) in
      update
        (update
          (update (update (hub_core_config tenant d) (hub_github_config tenant))
            (hub_conf_overrides tenant))
          (if processing_mode tenant "central_api" == "distributed"
            then central_fields (hub_central_config tenant)
            else ("central_api", null) ∷ ("central_config", null) ∷ []))
        ((
          "teams_webhook_url",
          if_distributed tenant "teams" (get_default "teams_webhook_url" notifications (str "")),
        )
          ∷ email "smtp_host"
          ∷ email "smtp_port"
          ∷ email "smtp_user"
          ∷ email "smtp_password"
          ∷ email "smtp_from"
          ∷ email "smtp_to"
          ∷ [])
