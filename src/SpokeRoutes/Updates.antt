-- ===== src/SpokeRoutes/Updates.antt =====
-- The update of all spokes of a tenant, and the task that follows it (app/routers/spokes.py,
-- `update_all_spokes` and `_poll_update_job`). The texts of instants and the names of the spokes
-- in a job are left out, as are the events; telemetry that is no dict counts as an empty one.
pub mod Ends
pub mod Sent
use webui_hub.Prelude.{
  ℕ, zero, suc, String, Bool, true, false, not, ◌&&◌, Option, none, some, List, [], ◌∷◌, ◌==◌, ◌+◌,
  ◌*◌, if◌then◌else◌, leb, ltb, keep, map,
}
use webui_hub.Json.{Json, Dict, null, get, put, truthy, same_json, dict_of}
use webui_hub.Disk.{Disk}
use webui_hub.Exec.{Exec, Result, ok, raised, http_error, return, reading, look, ◌>>=◌, ◌>>◌}
use webui_hub.Codec.{Codec}
use webui_hub.Models.{User, Spoke, Command}
use webui_hub.Store.Spokes.{load_spokes, is_approved}
use webui_hub.Store.Spokes.Format.{SpokeFormat, Instants}
use webui_hub.Store.Payload.{or_json, get_default}
use webui_hub.SpokeRoutes.Fleet.{Issue, issue, issue_to_all, admin_of}

-- What a job knows of a spoke.
pub record SpokeUpdate : Type 0 where
  pub agent_version_before : Json
  pub agent_version_after : Json
  pub agent_status : String
  pub agent_check_count : ℕ
  pub spoke_version_before : Json
  pub spoke_version_after : Json
  pub spoke_status : String

pub record UpdateJob : Type 0 where
  pub completed : Bool
  pub spokes : Dict SpokeUpdate

-- The versions of the agent and of the spoke that its telemetry reports.
pub record Versions : Type 0 where
  pub agent : Json
  pub spoke : Json

abbrev dict_at : String → Dict Json → Dict Json
dict_at key d = dict_of (or_json (get key d) null)

unfoldable pub versions_of : Spoke → Versions
versions_of s =
    let health = dict_at "health" (dict_at "api_server" s.telemetry) in
    record {
      agent = get_default "agent_version" (dict_at "proxmox" s.telemetry) null;
      spoke = or_json (get "installer_version" health) (get_default "version" health null);
    }

abbrev pub fresh_update : Versions → SpokeUpdate
fresh_update v = record {
  agent_version_before = v.agent;
  agent_version_after = null;
  agent_status = "pending";
  agent_check_count = 0;
  spoke_version_before = v.spoke;
  spoke_version_after = null;
  spoke_status = "pending";
}

-- `cur and cur != before`
abbrev pub is_changed : Json → Json → Bool
is_changed cur before = truthy cur && not (same_json cur before)

abbrev with_agent : String → Json → SpokeUpdate → SpokeUpdate
with_agent status version sd = record sd { agent_status = status; agent_version_after = version }

-- The agent's part of a poll, whether the spoke's own update is sent, and whether it waits no more.
unfoldable pub poll_agent : Json → SpokeUpdate → SpokeUpdate × Bool × Bool
poll_agent cur sd =
    if sd.agent_status == "pending"
    then (if is_changed cur sd.agent_version_before
        then (with_agent "updated" cur sd, true, true)
        else if leb 4 sd.agent_check_count
        then (with_agent "current" cur sd, true, true)
        else (record sd { agent_check_count = sd.agent_check_count + 1 }, false, false))
    else (sd, false, true)

-- The spoke's part, and whether it waits no more.
unfoldable pub poll_version : Json → SpokeUpdate → SpokeUpdate × Bool
poll_version cur sd =
    if sd.spoke_status == "pending"
    then (if is_changed cur sd.spoke_version_before
        then (record sd { spoke_status = "updated"; spoke_version_after = cur }, true)
        else (sd, false))
    else (sd, true)

-- What a poll makes of a spoke, whether it sends the update, and whether nothing is pending.
unfoldable pub poll_spoke : Versions → SpokeUpdate → SpokeUpdate × Bool × Bool
poll_spoke v sd =
    let (a, sent, agent_done) = poll_agent v.agent sd in
    let (b, spoke_done) = poll_version v.spoke a in (b, sent, agent_done && spoke_done)

abbrev timeout_if_pending : String → String
timeout_if_pending status = if status == "pending" then "timeout" else status

abbrev pub timed_out : SpokeUpdate → SpokeUpdate
timed_out sd = record sd {
  agent_status = timeout_if_pending sd.agent_status;
  spoke_status = timeout_if_pending sd.spoke_status;
}

abbrev pub complete : UpdateJob → UpdateJob
complete job = record job { completed = true }

abbrev pub time_out : UpdateJob → UpdateJob
time_out job = record { completed = true; spokes = map (λ e. (e.0, timed_out e.1)) job.spokes }

-- The task's surroundings: the instant of its n-th look at the clock, the issue of its n-th round,
-- and what the files have become by then.
pub record World : Type 0 where
  pub at : ℕ → ℕ
  pub issues : ℕ → Issue
  pub files : ℕ → Disk → Disk

abbrev pub Outcome : Type 0
Outcome = Option (Result UpdateJob × Disk)

-- Behind a round: the task is done, or goes on with the job. A raise ends it.
abbrev pub after_round : (UpdateJob → Disk → Outcome) → Result (UpdateJob × Bool) × Disk → Outcome
after_round go_on (raised e, d) = some (raised e, d)
after_round go_on (ok (job, true), d) = some (ok (complete job), d)
after_round go_on (ok (job, false), d) = go_on job d

abbrev pub second : ℕ
second = 1_000_000

module _ ⦃format : SpokeFormat⦄ ⦃times : Instants⦄ ⦃commands : Codec Command⦄ where
  abbrev send_if : Bool → Issue → String → Spoke → Exec (Unit {0})
  send_if sent g tenant_id s = if sent then issue g tenant_id "self_update" [] s else return tt

  abbrev put_update : String → SpokeUpdate → UpdateJob → UpdateJob
  put_update id sd job = record job { spokes = put id sd job.spokes }

  -- A spoke in a poll, and whether nothing of it is pending. The job is written before the command
  -- is queued, and the version is looked at behind it.
  abbrev visit : Issue → String → UpdateJob → Spoke → Option SpokeUpdate → Exec (UpdateJob × Bool)
  visit g tenant_id job s none = return (job, true)
  visit g tenant_id job s (some sd) = do
    let (updated, sent, finished) = poll_spoke (versions_of s) sd
    send_if sent g tenant_id s
    return (put_update s.id updated job, finished)

  -- `for spoke in store.list_spokes(tenant_id)`
  unfoldable pub visit_all :
      Issue → String → UpdateJob → Bool → List Spoke → Exec (UpdateJob × Bool)
  visit_all g tenant_id job all_done [] = return (job, all_done)
  visit_all g tenant_id job all_done (s ∷ spokes) = do
    (next, finished) ← visit g tenant_id job s (get s.id job.spokes)
    visit_all g tenant_id next (all_done && finished) spokes

  -- One round behind the sleep: the job, and whether nothing is pending.
  unfoldable pub poll_round : Issue → String → UpdateJob → Exec (UpdateJob × Bool)
  poll_round g tenant_id job = do
    spokes ← look (load_spokes tenant_id)
    visit_all g tenant_id job true spokes

  -- The loop from its n-th test on, with fuel; none means that the fuel ran out.
  unfoldable pub poll_from : World → String → ℕ → ℕ → ℕ → UpdateJob → Disk → Outcome
  poll_from w tenant_id deadline zero n job d = none
  poll_from w tenant_id deadline (suc fuel) n job d =
      let round =
        after_round (poll_from w tenant_id deadline fuel (n + 1))
          (poll_round (w.issues n) tenant_id job (w.files n d)) in
      if ltb (w.at n) deadline then round else some (ok (time_out job), d)

  -- `_poll_update_job`, which starts at the instant of its first test.
  unfoldable pub poll_update_job : World → String → ℕ → UpdateJob → Disk → Outcome
  poll_update_job w tenant_id fuel job d =
      poll_from w tenant_id (w.at 0 + 600 * second) fuel 0 job d

  -- `_spoke_versions_snapshot`
  unfoldable pub spoke_versions_snapshot : String → Disk → Dict SpokeUpdate
  spoke_versions_snapshot tenant_id d = snapshot_of [] (keep is_approved (load_spokes tenant_id d))
    where
      snapshot_of : Dict SpokeUpdate → List Spoke → Dict SpokeUpdate
      snapshot_of found [] = found
      snapshot_of found (s ∷ spokes) =
          snapshot_of (put s.id (fresh_update (versions_of s)) found) spokes

  -- The job that is started, and the ids of the spokes.
  unfoldable pub update_all_spokes : Issue → String → User → Exec (UpdateJob × List String)
  update_all_spokes g tenant_id user = do
    found ← look (spoke_versions_snapshot tenant_id)
    ids ← issue_to_all g tenant_id "proxmox_agent_update" [] user
    return (record { completed = false; spokes = found }, ids)
