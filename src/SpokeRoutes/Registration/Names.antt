-- ===== src/SpokeRoutes/Registration/Names.antt =====
-- What a registration gives and is answered, its log, and the check of its name
-- (app/routers/spokes.py).
use webui_hub.Prelude.{
  ℕ, String, Bool, false, not, ◌&&◌, Option, none, some, List, [], ◌∷◌, ◌++◌, ◌==◌, ◌+◌,
  if◌then◌else◌, ltb, length,
}
use webui_hub.Text.{strip, lower}
use webui_hub.Json.{Json, Dict, str}
use webui_hub.Exec.{ok, http_error, reading, look}
use webui_hub.Hub.{Task, done, fail, on_disk, ◌>>=◌, ◌>>◌}
use webui_hub.Models.{Spoke, PendingSpoke}
use webui_hub.Store.Spokes.{find_spoke_name_conflict}
use webui_hub.Store.Spokes.Format.{SpokeFormat, Instants}
use webui_hub.Store.Pending.{PendingFormat, find_pending_spoke_name_conflict}

pub record RegisterPayload : Type 0 where
  pub spoke_id : String
  pub hostname : String
  pub label : String
  pub spoke_name : String
  pub tenant_id_hint : String
  pub onboarding_psk : String
  pub api_key : String
  pub config : Dict Json

-- The payload after the checks of its id, its tenant and its configuration.
pub record Request : Type 0 where
  pub spoke_id : String
  pub hostname : String
  pub label : String
  pub spoke_name : String
  pub tenant_hint : String
  pub psk : String
  pub api_key : String
  pub config : Dict Json

-- The instant and its text, the address of the client, and the id, the key and the id of a command
-- that are drawn.
pub record Given : Type 0 where
  pub now : ℕ
  pub stamp : String
  pub client_ip : String
  pub new_id : String
  pub new_key : String
  pub command_id : String

-- The message of a pending registration is left out.
pub data Answer : Type 0 where
  approved_as : String → String → String → Answer
  pending_as : String → String → Answer

-- `str(uuid.UUID(candidate))`; `none`: it raises.
pub record Uuids : Type 0 where
  pub parse : String → Option String

abbrev is_text : String → Option String → Bool
is_text t none = false
is_text t (some u) = u == t

unfoldable pub is_valid_uuid : ⦃uuids : Uuids⦄ → String → Bool
is_valid_uuid ⦃uuids⦄ value =
    let candidate = lower (strip value) in
    not (candidate == "") && is_text candidate (uuids.parse candidate)

-- The last `n` of a list, as `del log[:-n]` leaves them.
unfoldable pub last_entries : {A : Type 0} → ℕ → List A → List A
last_entries n [] = []
last_entries n (x ∷ xs) =
    let rest = last_entries n xs in if ltb n (1 + length xs) then rest else x ∷ xs

abbrev pub reg_log_max : ℕ
reg_log_max = 100

unfoldable pub reg_log_append : Given → String → Dict Json → Task (Unit {0})
reg_log_append g event kwargs h = (
  ok tt,
  record h {
    registration_log =
        last_entries reg_log_max
          (h.registration_log ++ (("ts", str g.stamp) ∷ ("event", str event) ∷ kwargs) ∷ []);
  },
)

abbrev name_entry : String → String → String → Dict Json → Dict Json
name_entry hostname spoke_name tenant_id context =
    ("hostname", str hostname)
    ∷ ("spoke_name", str spoke_name)
    ∷ ("tenant_id", str tenant_id)
    ∷ context

abbrev pub refuse : Given → String → Dict Json → Task (Unit {0})
refuse g event entry = do reg_log_append g event entry; fail (http_error 409)

abbrev pub unless_approved :
    Given → String → Dict Json → Option Spoke → Task (Unit {0}) → Task (Unit {0})
unless_approved g hostname entry none next = next
unless_approved g hostname entry (some s) next =
    if s.hostname == hostname then next else refuse g "name_conflict_approved" entry

abbrev pub unless_pending : Given → String → Dict Json → Option PendingSpoke → Task (Unit {0})
unless_pending g hostname entry none = done tt
unless_pending g hostname entry (some p) =
    if p.hostname == hostname then done tt else refuse g "name_conflict_pending" entry

module _ ⦃format : SpokeFormat⦄ ⦃times : Instants⦄ ⦃pending : PendingFormat⦄ where
  unfoldable pub ensure_name_available_for_tenant :
      Given → String → String → String → String → Dict Json → Task (Unit {0})
  ensure_name_available_for_tenant g spoke_name tenant_id hostname exclude_spoke_id log_context =
      if tenant_id == "" then done tt else (do
        approved ← on_disk (look (find_spoke_name_conflict tenant_id spoke_name exclude_spoke_id))
        unless_approved g hostname (name_entry hostname spoke_name tenant_id log_context) approved
            (do
              waiting ←
                  on_disk (
                    reading
                      (find_pending_spoke_name_conflict tenant_id spoke_name exclude_spoke_id))
              unless_pending g hostname (name_entry hostname spoke_name tenant_id log_context)
                  waiting))
