-- ===== src/Tasks/Monitored.antt =====
-- The watch over the items of Aruba Central that a tenant monitors (`_check_monitored_items` of
-- app/tasks.py). An instant in an item is a number of microseconds.
pub mod Absent
pub mod Spaced
use webui_hub.Prelude.{
  ℕ, String, Bool, true, false, not, ◌&&◌, ◌||◌, Option, none, some, List, [], ◌∷◌, ◌++◌, ◌==◌, ◌+◌,
  ◌-◌, ◌*◌, if◌then◌else◌, elem, leb, ltb,
}
use webui_hub.Text.{strip, lower}
use webui_hub.Json.{
  Json, Items, nil, cons, Dict, null, num, str, arr, obj, get, put, to_fields, of_fields, truthy,
}
use webui_hub.Disk.{Disk}
use webui_hub.Exec.{Exec, return, look, write, ◌>>=◌, ◌>>◌}
use webui_hub.Codec.{Codec}
use webui_hub.Crypto.{Fernet, JsonText}
use webui_hub.Models.{Tenant, Command, AuditEntry}
use webui_hub.Store.Tenants.{restore_missing}
use webui_hub.Store.Settings.{get_tenant_central_sites_config, set_tenant_central_sites_config}
use webui_hub.Store.Spokes.Format.{SpokeFormat, Instants}
use webui_hub.Store.Payload.{or_json, get_default}
use webui_hub.Ini.{joined}
use webui_hub.Tasks.{Draw}
use webui_hub.Tasks.Notifications.{Delivery, send_notification}

-- What Central shows now: the names that are there, and when alerts, insights and devices were seen.
pub record Central : Type 0 where
  pub site_names : List String
  pub alert_names : List String
  pub insight_names : List String
  pub client_macs : List String
  pub alert_ts : Dict String
  pub insight_ts : Dict String
  pub device_names : Dict String

abbrev pub minute : ℕ
minute = 60_000_000

abbrev pub notify_after : ℕ
notify_after = 30 * minute

-- An instant, or a count; nothing is 0.
abbrev pub number_of : Option Json → ℕ
number_of (some (num n)) = n
number_of _ = 0

unfoldable pub number_at : String → Dict Json → ℕ
number_at key item = number_of (get key item)

abbrev is_some : Option String → Bool
is_some none = false
is_some (some t) = true

-- Is an item of this type there, and when was it seen? Other types are passed over.
unfoldable pub look_up : String → String → Central → Option (Bool × Option String)
look_up type id c =
    if type == "site"
    then some (elem id c.site_names, none)
    else if type == "alert"
    then some (elem id c.alert_names, get id c.alert_ts)
    else if type == "insight"
    then some (elem id c.insight_names, get id c.insight_ts)
    else if type == "client"
    then some (elem id c.client_macs, none)
    else if type == "gateway"
    then some (is_some (get id c.device_names), get id c.device_names)
    else none

abbrev pub has : String → Dict Json → Bool
has key item = truthy (get_default key item null)

abbrev pub with_first : Json → Dict Json → Dict Json
with_first seen item =
    if has "central_first_seen" item then item else put "central_first_seen" seen item

abbrev pub without_time : Dict Json → Dict Json
without_time item =
    if has "central_last_seen" item
    then with_first (get_default "central_last_seen" item null) item
    else item

abbrev pub with_time : Option String → Dict Json → Dict Json
with_time none item = without_time item
with_time (some t) item =
    if t == "" then without_time item else with_first (str t) (put "central_last_seen" (str t) item)

unfoldable pub found_item : ℕ → Option String → Dict Json → Dict Json
found_item now seen item = with_time seen (
    put "status" (str "ok") (
      put "missing_since" null
        (put "last_seen" (num now) (put "consecutive_failures" (num 0) item))))

abbrev pub status_after : ℕ → String
status_after missing_for =
    if leb (30 * minute) missing_for
    then "missing"
    else if leb (15 * minute) missing_for
    then "warning"
    else "ok"

unfoldable pub since_first : ℕ → Dict Json → Dict Json
since_first now item = if has "missing_since" item then item else put "missing_since" (num now) item

unfoldable pub missed_item : ℕ → Dict Json → Dict Json
missed_item now item =
    put "status" (str (status_after (now - number_at "missing_since" item)))
      (put "consecutive_failures" (num (number_at "consecutive_failures" item + 1)) item)

-- Is the user told? The item is the missed one.
abbrev pub is_told : ℕ → Dict Json → Bool
is_told now item =
    leb notify_after (now - number_at "missing_since" item)
    && ltb notify_after (now - number_at "last_notified" item)

unfoldable pub told_item : ℕ → Dict Json → Dict Json × Bool
told_item now item =
    if is_told now item then (put "last_notified" (num now) item, true) else (item, false)

-- The item, and whether the user is told that it is missing.
abbrev pub check_as : ℕ → Dict Json → Bool × Option String → Dict Json × Bool
check_as now item (true, seen) = (found_item now seen item, false)
check_as now item (false, seen) = told_item now (missed_item now (since_first now item))

abbrev pub check_found : ℕ → Dict Json → Option (Bool × Option String) → Dict Json × Bool
check_found now item none = (item, false)
check_found now item (some r) = check_as now item r

-- A title, without the sign in front of it, and a message.
abbrev Notice : Type 0
Notice = String × String

-- `item_type.title()`, at the types that are looked up.
abbrev titled : String → String
titled type =
    if type == "site"
    then "Site"
    else if type == "alert"
    then "Alert"
    else if type == "insight"
    then "Insight"
    else if type == "client"
    then "Client"
    else "Gateway"

module _ ⦃json : JsonText⦄ where
  abbrev pub type_of : Dict Json → String
  type_of item = json.str_of (or_json (get "type" item) (str ""))

  abbrev pub identifier_of : Dict Json → String
  identifier_of item = lower (strip (json.str_of (or_json (get "identifier" item) (str ""))))

  unfoldable pub check_item : ℕ → Central → Dict Json → Dict Json × Bool
  check_item now c item = check_found now item (look_up (type_of item) (identifier_of item) c)

  abbrev notice : Dict Json → Notice
  notice item = (
    joined "Monitored " (joined (titled (type_of item)) " No Longer Reporting"),
    joined "The monitored " (
        joined (type_of item) (
          joined " \"" (
            joined (json.str_of (or_json (get "name" item) (str (identifier_of item))))
              "\" has not been seen in Aruba Central for 30+ minutes."))),
  )

  abbrev is_checked : Dict Json → Bool
  is_checked item = elem (type_of item) ("site" ∷ "alert" ∷ "insight" ∷ "client" ∷ "gateway" ∷ [])

  pub record Checked : Type 0 where
    pub items : Items
    pub notices : List Notice
    pub changed : Bool

  -- The loop over the items.
  unfoldable pub check_items : ℕ → Central → Items → Checked
  check_items now c nil = record { items = nil; notices = []; changed = false }
  check_items now c (cons (obj fs) js) =
      let item = of_fields fs in
      let r = check_item now c item in
      let rest = check_items now c js in
      record {
        items = cons (obj (to_fields r.0)) rest.items;
        notices = if r.1 then notice item ∷ rest.notices else rest.notices;
        changed = is_checked item || rest.changed;
      }
  check_items now c (cons j js) =
      let rest = check_items now c js in record rest { items = cons j rest.items }

  abbrev items_in : Option Json → Items
  items_in (some (arr js)) = js
  items_in _ = nil

  module _ ⦃fernet : Fernet⦄ ⦃tenants : Codec Tenant⦄ ⦃format : SpokeFormat⦄ ⦃times : Instants⦄
      ⦃commands : Codec Command⦄ ⦃entries : Codec AuditEntry⦄ where
    -- A notification of an item is about no spoke.
    unfoldable pub send_all : Draw → String → String → List Notice → Exec (List Delivery)
    send_all g tenant_id mode [] = return []
    send_all g tenant_id mode (n ∷ ns) = do
      sent ← send_notification g tenant_id "" n.0 n.1 mode
      rest ← send_all g tenant_id mode ns
      return (sent ++ rest)

    -- What the hub has sent.
    unfoldable pub check_monitored_items : Draw → String → String → Central → Exec (List Delivery)
    check_monitored_items g tenant_id mode c = do
      write restore_missing
      cfg ← look (get_tenant_central_sites_config tenant_id)
      let r = check_items g.now c (items_in (get "monitored_items" cfg))
      sent ← send_all g tenant_id mode r.notices
      write (λ d.
          if r.changed
          then set_tenant_central_sites_config tenant_id (put "monitored_items" (arr r.items) cfg) d
          else d)
      return sent
