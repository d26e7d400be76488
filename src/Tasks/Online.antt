-- ===== src/Tasks/Online.antt =====
-- Which spokes are online (`heartbeat_monitor` and `check_state_engine` of app/tasks.py): one pass
-- over the tenants' spokes. A spoke is named by its tenant and its id.
pub mod Watched
use webui_hub.Prelude.{
  ℕ, String, Bool, true, false, not, ◌&&◌, ◌||◌, Option, none, some, List, [], ◌∷◌, ◌++◌, ◌==◌,
  if◌then◌else◌, map,
}
use webui_hub.Json.{Json, Dict, bool, str, obj, get, put, to_fields}
use webui_hub.Disk.{Disk}
use webui_hub.Exec.{Exec, return, look, write, ◌>>=◌, ◌>>◌}
use webui_hub.Codec.{Codec}
use webui_hub.Crypto.{Fernet, JsonText}
use webui_hub.Models.{Tenant, Spoke, Command, AuditEntry}
use webui_hub.Store.Tenants.{restore_missing, list_tenants}
use webui_hub.Store.Spokes.{load_spokes, is_approved}
use webui_hub.Store.Spokes.Format.{SpokeFormat, Instants}
use webui_hub.SpokeRoutes.Fleet.{is_spoke_online}
use webui_hub.Ini.{joined}
use webui_hub.Tasks.{Draw}
use webui_hub.Tasks.Notifications.{Delivery, send_notification}

-- `spoke_online`: for each tenant, its spokes.
abbrev pub Online : Type 0
Online = Dict (Dict Bool)

abbrev pub of_tenant : Option (Dict Bool) → Dict Bool
of_tenant none = []
of_tenant (some spokes) = spokes

abbrev pub state_differs : Option Bool → Bool → Bool
state_differs none now = true
state_differs (some true) now = not now
state_differs (some false) now = now

-- A tenant's spokes in a pass, and whether any state has changed.
unfoldable pub mark_spokes : ℕ → List Spoke → Dict Bool → Dict Bool × Bool
mark_spokes now [] state = (state, false)
mark_spokes now (s ∷ spokes) state =
    let online = is_spoke_online now s in
    let marks = is_approved s && state_differs (get s.id state) online in
    let rest = mark_spokes now spokes (if marks then put s.id online state else state) in
    (rest.0, marks || rest.1)

abbrev event : Online → Dict Json
event online =
    ("type", str "heartbeat_update")
    ∷ (
      "island_online",
      obj (to_fields (map (λ e. (e.0, obj (to_fields (map (λ x. (x.0, bool x.1)) e.1)))) online)),
    )
    ∷ []

module _ ⦃format : SpokeFormat⦄ ⦃times : Instants⦄ where
  unfoldable pub mark_tenants : ℕ → List Tenant → Online → Disk → Online × Bool
  mark_tenants now [] online d = (online, false)
  mark_tenants now (t ∷ tenants) online d =
      let marked = mark_spokes now (load_spokes t.id d) (of_tenant (get t.id online)) in
      let rest = mark_tenants now tenants (put t.id marked.0 online) d in
      (rest.0, marked.1 || rest.1)

  -- One pass of the heartbeat: what it knows then, and the event that it broadcasts.
  unfoldable pub heartbeat_pass :
      ⦃tenants : Codec Tenant⦄ → ℕ → Online → Exec (Online × List (Dict Json))
  heartbeat_pass now online = do
    write restore_missing
    tenants ← look (list_tenants false)
    marked ← look (mark_tenants now tenants online)
    return (marked.0, if marked.1 then event marked.0 ∷ [] else [])

  module _ ⦃fernet : Fernet⦄ ⦃json : JsonText⦄ ⦃tenants : Codec Tenant⦄ ⦃commands : Codec Command⦄
      ⦃entries : Codec AuditEntry⦄ where
    abbrev was_online : Option Bool → Bool
    was_online none = false
    was_online (some b) = b

    abbrev pub key_of : String → Spoke → String
    key_of tenant_id s = joined tenant_id (joined ":" s.id)

    -- The title without the sign in front of it.
    abbrev tell_offline : Draw → String → Spoke → Exec (List Delivery)
    tell_offline g tenant_id s =
        send_notification g tenant_id s.id (joined "Spoke Offline: " s.hostname)
          (joined "Spoke " (joined s.hostname " has gone offline (no telemetry in 10 minutes)."))
          "centralized"

    abbrev evaluate : Draw → String → Spoke → Dict Bool → Exec (List Delivery × Dict Bool)
    evaluate g tenant_id s prev = if not (is_approved s) then return ([], prev) else do
      let online = is_spoke_online g.now s
      sent ←
          (if was_online (get (key_of tenant_id s) prev) && not online
            then tell_offline g tenant_id s
            else return [])
      return (sent, put (key_of tenant_id s) online prev)

    unfoldable pub evaluate_spokes :
        Draw → String → List Spoke → Dict Bool → Exec (List Delivery × Dict Bool)
    evaluate_spokes g tenant_id [] prev = return ([], prev)
    evaluate_spokes g tenant_id (s ∷ spokes) prev = do
      (sent, next) ← evaluate g tenant_id s prev
      (more, last) ← evaluate_spokes g tenant_id spokes next
      return (sent ++ more, last)

    unfoldable pub evaluate_tenants :
        Draw → List Tenant → Dict Bool → Exec (List Delivery × Dict Bool)
    evaluate_tenants g [] prev = return ([], prev)
    evaluate_tenants g (t ∷ ts) prev = do
      spokes ← look (load_spokes t.id)
      (sent, next) ← evaluate_spokes g t.id spokes prev
      (more, last) ← evaluate_tenants g ts next
      return (sent ++ more, last)

    -- One pass of the state engine: what it sends, and what it knows then.
    unfoldable pub check_state_pass : Draw → Dict Bool → Exec (List Delivery × Dict Bool)
    check_state_pass g prev = do
      write restore_missing
      tenants ← look (list_tenants false)
      evaluate_tenants g tenants prev
