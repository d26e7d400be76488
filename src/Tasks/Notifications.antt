-- ===== src/Tasks/Notifications.antt =====
-- Notifications of a tenant (`send_notification` of app/tasks.py, and the configuration in
-- app/notifications.py). What is posted or mailed is the task's result: both ignore failures.
pub mod Dropped
use webui_hub.Prelude.{
  ℕ, String, ◌≡◌, refl, ap, ◌∙◌, Bool, true, false, not, ◌&&◌, ◌||◌, Option, none, some, List, [],
  ◌∷◌, ◌++◌, ◌==◌, if◌then◌else◌, Bool-cases, Option-cases, inl, inr,
}
use webui_hub.Json.{Json, Dict, null, bool, num, str, arr, obj, nil, get, put, to_fields, truthy}
use webui_hub.Disk.{Disk}
use webui_hub.Exec.{Exec, return, look, write, ◌>>=◌, ◌>>◌}
use webui_hub.Codec.{Codec}
use webui_hub.Crypto.{Fernet, JsonText, decrypt_dict}
use webui_hub.Models.{Tenant, Spoke, Command, AuditEntry, resolve}
use webui_hub.Store.Tenants.{get_tenant, restore_missing}
use webui_hub.Store.Spokes.{get_spoke}
use webui_hub.Store.Spokes.Format.{SpokeFormat, Instants}
use webui_hub.Store.Queue.{enqueue_command}
use webui_hub.Store.Audit.{append_audit}
use webui_hub.Store.Payload.{or_json, get_default, texts, split_commas}
use webui_hub.Tasks.{Draw, task_command, task_audit}

-- A post to a Teams channel, or a mail.
pub data Delivery : Type 0 where
  teams : Json → String → String → Delivery
  mail : Json → Json → Json → Json → Json → Json → String → String → Delivery

abbrev listed : Json → Json
listed (str t) = arr (texts (split_commas "" t))
listed j = j

abbrev not_null : Json → Option Json
not_null null = none
not_null j = some j

abbrev given : Option Json → Option Json
given none = none
given (some j) = not_null j

abbrev or_else : Option Json → Json → Json
or_else none other = other
or_else (some j) other = j

-- `value or ""`
abbrev or_blank : Json → Json
or_blank j = if truthy j then j else str ""

-- `_normalize_notification_config`
unfoldable pub normalize_notification_config : Dict Json → Dict Json
normalize_notification_config cfg =
    let webhook =
      or_json (get "teams_webhook" cfg) (or_json (get "teams_webhook_url" cfg) (str "")) in
    put "to_emails" (listed (or_json (get "to_emails" cfg) (arr nil))) (
      put "smtp_pass"
        (or_blank
          (or_else (given (get "smtp_pass" cfg)) (get_default "smtp_password" cfg (str ""))))
        (put "teams_webhook_url" webhook (
          put "teams_webhook" webhook
            (put "enabled" (bool (truthy (get_default "enabled" cfg null))) cfg))))

abbrev if_enabled : Dict Json → Option (Dict Json)
if_enabled cfg = if truthy (get_default "enabled" cfg null) then some cfg else none

abbrev enabled_config : Option (Dict Json) → Option (Dict Json)
enabled_config none = none
enabled_config (some cfg) = if_enabled (normalize_notification_config cfg)

-- What is sent from the hub, and what is left to the spoke.
pub record Plan : Type 0 where
  pub deliveries : List Delivery
  pub distributed_cfg : Dict Json
  pub distributed : Bool
  pub centralized : Bool

abbrev pub is_given : String → Dict Json → Bool
is_given key cfg = truthy (get_default key cfg null)

abbrev value : String → Dict Json → Json
value key cfg = get_default key cfg null

unfoldable pub plan_teams : String → Dict Json → String → String → Plan → Plan
plan_teams mode cfg title message p =
    if is_given "teams_webhook" cfg
    then (if mode == "distributed"
        then record p {
          distributed_cfg =
              put "teams_webhook_url" (value "teams_webhook" cfg)
                (put "teams_webhook" (value "teams_webhook" cfg) p.distributed_cfg);
          distributed = true;
        }
        else record p {
          deliveries = p.deliveries ++ teams (value "teams_webhook" cfg) title message ∷ [];
          centralized = true;
        })
    else p

unfoldable pub plan_email : String → Dict Json → String → String → Plan → Plan
plan_email mode cfg title message p =
    if is_given "smtp_host" cfg && is_given "to_emails" cfg
    then (if mode == "distributed"
        then record p {
          distributed_cfg = put "from_email" (get_default "from_email" cfg (str "hub@localhost")) (
              put "to_emails" (value "to_emails" cfg) (
                put "smtp_pass" (get_default "smtp_pass" cfg (str "")) (
                  put "smtp_user" (get_default "smtp_user" cfg (str "")) (
                    put "smtp_port" (get_default "smtp_port" cfg (num 587))
                      (put "smtp_host" (value "smtp_host" cfg) p.distributed_cfg)))));
          distributed = true;
        }
        else record p {
          deliveries =
              p.deliveries
              ++ mail (value "smtp_host" cfg) (get_default "smtp_port" cfg (num 587))
                  (get_default "smtp_user" cfg (str "")) (get_default "smtp_pass" cfg (str ""))
                  (get_default "from_email" cfg (str "hub@localhost")) (value "to_emails" cfg) title
                  message
                ∷ [];
          centralized = true;
        })
    else p

abbrev no_plan : Plan
no_plan = record {
  deliveries = [];
  distributed_cfg = ("enabled", bool true) ∷ [];
  distributed = false;
  centralized = false;
}

-- The mode of a feature: the spoke's, or the caller's where there is none.
abbrev pub mode_for : String → String → Option Spoke → String
mode_for feature mode none = mode
mode_for feature mode (some s) = resolve s.processing_mode feature

unfoldable pub plan_for : String → Option Spoke → Dict Json → String → String → Plan
plan_for mode found cfg title message =
    plan_email (mode_for "email" mode found) cfg title message
      (plan_teams (mode_for "teams_webhook" mode found) cfg title message no_plan)

module _ ⦃fernet : Fernet⦄ ⦃json : JsonText⦄ where
  abbrev config_of : Option String → Option (Dict Json)
  config_of none = none
  config_of (some enc) = if enc == "" then none else enabled_config (decrypt_dict enc)

  abbrev config_for : Option Tenant → Option (Dict Json)
  config_for none = none
  config_for (some t) = config_of t.notification_config_enc

  module _ ⦃tenants : Codec Tenant⦄ ⦃format : SpokeFormat⦄ ⦃times : Instants⦄
      ⦃commands : Codec Command⦄ ⦃entries : Codec AuditEntry⦄ where
    unfoldable pub get_notification_config : String → Disk → Option (Dict Json)
    get_notification_config tenant_id d = config_for (get_tenant tenant_id d)

    abbrev push_plan : Draw → String → String → String → String → Plan → Exec (Unit {0})
    push_plan g tenant_id spoke_id title message p =
        if p.distributed && not (spoke_id == "")
        then (do
          enqueue_command g.now (
              task_command g spoke_id tenant_id "notification_push" (
                ("title", str title)
                ∷ ("message", str message)
                ∷ ("config", obj (to_fields p.distributed_cfg))
                ∷ []))
          append_audit g.now
              (task_audit g spoke_id tenant_id "notification" "distributed" "pending" title))
        else return tt

    abbrev log_plan : Draw → String → String → String → Plan → Exec (Unit {0})
    log_plan g tenant_id spoke_id title p =
        if p.centralized && not (spoke_id == "")
        then append_audit g.now
            (task_audit g spoke_id tenant_id "notification" "centralized" "success" title)
        else return tt

    abbrev pub send_with : Draw → String → String → String → String → Plan → Exec (List Delivery)
    send_with g tenant_id spoke_id title message p = do
      push_plan g tenant_id spoke_id title message p
      log_plan g tenant_id spoke_id title p
      return p.deliveries

    abbrev spoke_or_none : String → String → Disk → Option Spoke
    spoke_or_none tenant_id spoke_id d =
        if spoke_id == "" then none else get_spoke tenant_id spoke_id d

    abbrev send_as :
        Draw
        → String
        → String
        → String
        → String
        → String
        → Option (Dict Json)
        → Exec (List Delivery)
    send_as g tenant_id spoke_id title message mode none = return []
    send_as g tenant_id spoke_id title message mode (some cfg) = do
      found ← look (spoke_or_none tenant_id spoke_id)
      send_with g tenant_id spoke_id title message (plan_for mode found cfg title message)

    -- What the hub has sent itself.
    unfoldable pub send_notification :
        Draw → String → String → String → String → String → Exec (List Delivery)
    send_notification g tenant_id spoke_id title message mode = do
      write restore_missing
      cfg ← look (get_notification_config tenant_id)
      send_as g tenant_id spoke_id title message mode cfg
