-- ===== src/Reseed.antt =====
-- The jobs that reseed spokes from a template (app/routers/backups.py, and `_relay_backup_progress`
-- of app/routers/spokes.py). The texts of the instants in a job are left out.
pub mod Retries
pub mod Trigger
use webui_hub.Prelude.{
  ℕ, String, ◌≡◌, Bool, true, false, not, ◌&&◌, ◌||◌, Option, none, some, List, [], ◌∷◌, ◌++◌, ◌==◌,
  ◌+◌, ◌*◌, if◌then◌else◌, leb, eqb, map,
}
use webui_hub.Json.{Json, Dict, str, num, get, put}
use webui_hub.Exec.{Exec, return, ◌>>=◌, ◌>>◌}
use webui_hub.Codec.{Codec}
use webui_hub.Models.{Command, new_command, hour}
use webui_hub.Store.Queue.{enqueue_command}
use webui_hub.Sockets.{Sockets, send_to_spoke}

pub record SpokeState : Type 0 where
  pub status : String
  pub step : Option String
  pub error : Option String
  pub retry_count : ℕ

pub record ReseedJob : Type 0 where
  pub status : String
  pub spoke_status : Dict SpokeState

pub record Progress : Type 0 where
  pub status : String
  pub step : Option String
  pub error : Option String

abbrev pub is_success : String → Bool
is_success status = (status == "done") || (status == "completed")

abbrev pub is_error : String → Bool
is_error status = (status == "error") || (status == "failed")

abbrev all_of : (String → Bool) → List String → Bool
all_of test [] = true
all_of test (s ∷ ss) = test s && all_of test ss

abbrev any_of : (String → Bool) → List String → Bool
any_of test [] = false
any_of test (s ∷ ss) = test s || any_of test ss

abbrev pub job_status : List String → String
job_status states =
    if all_of is_success states
    then "completed"
    else if all_of (λ s. is_success s || is_error s) states
    then (if any_of is_error states then "failed" else "completed")
    else "running"

-- `_refresh_backup_job_status`, for a reseed job.
unfoldable pub refresh_backup_job_status : ReseedJob → ReseedJob
refresh_backup_job_status job = record job {
  status = job_status (map (λ e. e.1.status) job.spoke_status);
}

-- The delays after which a retry starts, in seconds.
abbrev pub reseed_retry_delay : ℕ → Option ℕ
reseed_retry_delay n =
    if eqb n 1 then some 300 else if eqb n 2 then some 900 else if eqb n 3 then some 1800 else none

-- A job, the retries that wait for their delay, and those that were dispatched: a spoke and a count.
pub record Reseed : Type 0 where
  pub job : ReseedJob
  pub timers : List (String × ℕ)
  pub dispatched : List (String × ℕ)

abbrev pub counted : SpokeState → Progress → ℕ
counted st p = if is_error p.status then st.retry_count + 1 else st.retry_count

-- Does the report start a retry?
abbrev pub retries : SpokeState → Progress → Bool
retries st p = is_error p.status && leb (st.retry_count + 1) 3

abbrev pub reported_state : SpokeState → Progress → SpokeState
reported_state st p = record {
  status = if retries st p then "retrying" else p.status;
  step = p.step;
  error = p.error;
  retry_count = counted st p;
}

abbrev with_state : String → SpokeState → ReseedJob → ReseedJob
with_state spoke_id st job =
    refresh_backup_job_status (record job { spoke_status = put spoke_id st job.spoke_status })

abbrev pub report_of : String → Progress → Reseed → Option SpokeState → Reseed
report_of spoke_id p s none = s
report_of spoke_id p s (some st) = record s {
  job = with_state spoke_id (reported_state st p) s.job;
  timers = if retries st p then (spoke_id, counted st p) ∷ s.timers else s.timers;
}

-- A report of a spoke of the job; that of another spoke changes nothing.
unfoldable pub update_reseed_progress : String → Progress → Reseed → Reseed
update_reseed_progress spoke_id p s = report_of spoke_id p s (get spoke_id s.job.spoke_status)

abbrev pub dispatched_state : Bool → SpokeState → SpokeState
dispatched_state sent st = record st {
  status = if sent then "running" else "queued";
  step = some (if sent then "retry_sent" else "retry_queued");
}

abbrev pub is_due : ℕ → SpokeState → Bool
is_due n st = (st.status == "retrying") && eqb st.retry_count n

abbrev pub retry_of : String → ℕ → Bool → Reseed → Option ℕ → Option SpokeState → Reseed
retry_of spoke_id n sent s none st = s
retry_of spoke_id n sent s (some delay) none = s
retry_of spoke_id n sent s (some delay) (some st) =
    if is_due n st
    then record s {
      job = with_state spoke_id (dispatched_state sent st) s.job;
      dispatched = (spoke_id, n) ∷ s.dispatched;
    }
    else s

-- `_retry_reseed_after_delay`, after the delay. Was the command sent, or queued?
unfoldable pub retry_reseed : String → ℕ → Bool → Reseed → Reseed
retry_reseed spoke_id n sent s =
    retry_of spoke_id n sent s (reseed_retry_delay n) (get spoke_id s.job.spoke_status)

module _ ⦃commands : Codec Command⦄ where
  abbrev queue_unless : ℕ → String → String → String → Dict Json → Bool → Exec String
  queue_unless now command_id tenant_id spoke_id payload true = return "sent"
  queue_unless now command_id tenant_id spoke_id payload false = do
    enqueue_command now
        (new_command command_id now spoke_id tenant_id "spoke" "reseed" payload (now + 24 * hour))
    return "queued"

  -- The command goes over the spoke's socket, or into its queue.
  unfoldable pub send_or_queue_reseed_command :
      (ℕ → Bool) → ℕ → String → String → String → Dict Json → Sockets → Exec (String × Sockets)
  send_or_queue_reseed_command fails now command_id tenant_id spoke_id payload s = do
    let sent = send_to_spoke fails tenant_id spoke_id s
    outcome ← queue_unless now command_id tenant_id spoke_id payload sent.0
    return (outcome, sent.1)
