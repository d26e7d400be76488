-- ===== src/Reseed/Trigger.antt =====
-- The start of a reseed job (app/routers/backups.py, `trigger_reseed`).
use webui_hub.Prelude.{
  ℕ, String, Bool, false, Option, none, some, List, [], ◌∷◌, ◌==◌, if◌then◌else◌, keep, map,
}
use webui_hub.Json.{Json, Dict, str, num, get, put}
use webui_hub.Disk.{Disk}
use webui_hub.Exec.{Exec, Result, ok, raised, http_error, return, reading, ◌>>=◌}
use webui_hub.Codec.{Codec}
use webui_hub.Models.{User, Spoke, Command}
use webui_hub.Auth.{require_tenant_admin}
use webui_hub.Store.Spokes.{get_spoke, load_spokes, is_approved}
use webui_hub.Store.Spokes.Format.{SpokeFormat, Instants}
use webui_hub.Sockets.{Sockets}
use webui_hub.CommandRoutes.{approved_or_raise, joined}
use webui_hub.Reseed.{SpokeState, Reseed, send_or_queue_reseed_command}

pub record ReseedRequest : Type 0 where
  pub tenant_id : String
  pub template_name : String
  pub latest_blob : String
  pub spoke_ids : List String
  pub vm_id : ℕ

-- The account and the container of the backup settings.
pub record BackupTarget : Type 0 where
  pub azure_account : String
  pub azure_container : String

abbrev pub blob_url : BackupTarget → String → String
blob_url target blob = joined "https://" (
    joined target.azure_account
      (joined ".blob.core.windows.net/" (joined target.azure_container (joined "/" blob))))

abbrev pub build_reseed_command_payload : BackupTarget → String → ReseedRequest → Dict Json
build_reseed_command_payload target job_id req =
    ("cmd_type", str "reseed")
    ∷ ("job_id", str job_id)
    ∷ ("blob_url", str (blob_url target req.latest_blob))
    ∷ ("vm_id", num req.vm_id)
    ∷ ("template_name", str req.template_name)
    ∷ ("azure_account", str target.azure_account)
    ∷ ("azure_container", str target.azure_container)
    ∷ ("retry_max", num 3)
    ∷ []

abbrev pending_state : SpokeState
pending_state = record { status = "pending"; step = none; error = none; retry_count = 0 }

unfoldable pub pending_states : List String → Dict SpokeState → Dict SpokeState
pending_states [] states = states
pending_states (i ∷ ids) states = pending_states ids (put i pending_state states)

abbrev pub started : Bool → SpokeState → SpokeState
started sent st = record st {
  status = if sent then "running" else "queued";
  step = some (if sent then "command_sent" else "queued_offline");
}

abbrev start_state : String → Bool → Dict SpokeState → Option SpokeState → Dict SpokeState
start_state i sent states none = states
start_state i sent states (some st) = put i (started sent st) states

abbrev first_id : String → String → String
first_id job_id spoke_id = joined job_id (joined "-" (joined spoke_id "-0"))

module _ ⦃format : SpokeFormat⦄ ⦃times : Instants⦄ where
  abbrev cons_checked : String → Result Spoke → Result (List String) → Result (List String)
  cons_checked i (raised e) rest = raised e
  cons_checked i (ok s) (raised e) = raised e
  cons_checked i (ok s) (ok ids) = ok (i ∷ ids)

  unfoldable pub checked_ids : String → List String → Disk → Result (List String)
  checked_ids tenant_id [] d = ok []
  checked_ids tenant_id (i ∷ ids) d =
      cons_checked i (approved_or_raise (get_spoke tenant_id i d)) (checked_ids tenant_id ids d)

  abbrev is_all : List String → Bool
  is_all (i ∷ []) = i == "all"
  is_all _ = false

  abbrev chosen : String → List String → Disk → Result (List String)
  chosen tenant_id ids d =
      if is_all ids
      then ok (map (λ s. s.id) (keep is_approved (load_spokes tenant_id d)))
      else checked_ids tenant_id ids d

  abbrev some_or_400 : Result (List String) → Result (List String)
  some_or_400 (raised e) = raised e
  some_or_400 (ok []) = raised (http_error 400)
  some_or_400 (ok (i ∷ ids)) = ok (i ∷ ids)

  -- The approved spokes of the tenant for `["all"]`, else those that are named.
  unfoldable pub chosen_spokes : String → List String → Disk → Result (List String)
  unfolding checked_ids
  chosen_spokes tenant_id ids d = some_or_400 (chosen tenant_id ids d)

  module _ ⦃commands : Codec Command⦄ where
    unfoldable pub dispatch_all :
        (ℕ → Bool)
        → ℕ
        → String
        → String
        → Dict Json
        → List String
        → Dict SpokeState
        → Sockets
        → Exec (Dict SpokeState × Sockets)
    dispatch_all fails now job_id tenant_id payload [] states s = return (states, s)
    dispatch_all fails now job_id tenant_id payload (i ∷ ids) states s = do
      out ← send_or_queue_reseed_command fails now (first_id job_id i) tenant_id i payload s
      dispatch_all fails now job_id tenant_id payload ids
          (start_state i (out.0 == "sent") states (get i states)) out.1

    -- The job that starts, and the sockets that are left.
    unfoldable pub trigger_reseed :
        (ℕ → Bool)
        → ℕ
        → String
        → BackupTarget
        → ReseedRequest
        → User
        → Sockets
        → Exec (Reseed × Sockets)
    trigger_reseed fails now job_id target req user s = do
      u ← reading (λ d. require_tenant_admin req.tenant_id user)
      ids ← reading (chosen_spokes req.tenant_id req.spoke_ids)
      out ←
          dispatch_all fails now job_id req.tenant_id
            (build_reseed_command_payload target job_id req) ids (pending_states ids []) s
      return (
        record {
          job = record { status = "running"; spoke_status = out.0 };
          timers = [];
          dispatched = [];
        },
        out.1,
      )
