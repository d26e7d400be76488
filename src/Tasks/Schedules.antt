-- ===== src/Tasks/Schedules.antt =====
-- What the tasks queue for spokes (`schedule_check`, `auto_recovery_check` and `_broadcast_gkill` of
-- app/tasks.py): one pass of each, which a raise ends. What a pass has changed by then stays.
pub mod Once
use Prim.Native.Char.{Char, code}
use webui_hub.Prelude.{
  ℕ, String, Bool, true, false, not, ◌&&◌, ◌||◌, Option, none, some, List, [], ◌∷◌, ◌++◌, ◌==◌, ◌+◌,
  ◌-◌, ◌*◌, if◌then◌else◌, eqb, ltb,
}
use webui_hub.Text.{is_space, strip, lower}
use webui_hub.Json.{Json, Dict, null, num, str, get, put, same_json}
use webui_hub.Disk.{Disk}
use webui_hub.Exec.{
  Exec, Result, ok, raised, attribute_error, value_error, return, raise, look, write, for_each,
  ◌>>=◌, ◌>>◌,
}
use webui_hub.Codec.{Codec}
use webui_hub.Crypto.{JsonText}
use webui_hub.Models.{Tenant, Spoke, Command, AuditEntry, resolve}
use webui_hub.Store.Tenants.{restore_missing, list_tenants}
use webui_hub.Store.Spokes.{load_spokes, is_approved}
use webui_hub.Store.Spokes.Format.{SpokeFormat, Instants}
use webui_hub.Store.Queue.{enqueue_command}
use webui_hub.Store.Audit.{append_audit}
use webui_hub.Store.Payload.{get_default}
use webui_hub.Ini.{joined, front}
use webui_hub.Tasks.{Draw, task_command, task_audit}

-- The pieces between the characters that pass the test: `text.split(":")`.
unfoldable pub pieces : (Char → Bool) → String → List String
pieces test String.[] = "" ∷ []
pieces test (String.◌∷◌ c s) =
    let rest = pieces test s in if test c then "" ∷ rest else front c rest

abbrev nonempty : List String → List String
nonempty [] = []
nonempty (t ∷ ts) = if t == "" then nonempty ts else t ∷ nonempty ts

-- `text.split()`
abbrev words : String → List String
words s = nonempty (pieces is_space s)

-- The instant of a pass: the day's name, the hour and the minute, and all of it to the minute.
pub record Clock : Type 0 where
  pub day : String
  pub hour : ℕ
  pub minute : ℕ
  pub key : String

abbrev both : Option ℕ → Option ℕ → Option (ℕ × ℕ)
both (some h) (some m) = some (h, m)
both _ _ = none

abbrev is_at : Clock → Option (ℕ × ℕ) → Bool
is_at now none = false
is_at now (some (h, m)) = eqb now.hour h && eqb now.minute m

-- `_last_schedule_trigger`, the files, and whether the pass goes on.
abbrev pub Pass : Type 0
Pass = Result (Unit {0}) × Dict String × Disk

-- The rest of a loop.
abbrev pub go_on : Pass → (Dict String → Disk → Pass) → Pass
go_on (ok u, triggers, d) rest = rest triggers d
go_on (raised e, triggers, d) rest = (raised e, triggers, d)

abbrev pub same_minute : Option String → String → Bool
same_minute none key = false
same_minute (some k) key = k == key

-- Python's `float` of a setting in hours, in microseconds, and a span of time as a text in hours.
pub record Hours : Type 0 where
  pub float_of : Json → Option ℕ
  pub show : ℕ → String

module _ ⦃json : JsonText⦄ where
  abbrev time_in : List String → Option (ℕ × ℕ)
  time_in (h ∷ m ∷ []) = both (json.int_of (str h)) (json.int_of (str m))
  time_in _ = none

  abbrev is_time : Clock → List String → Bool
  is_time now (day ∷ time ∷ []) =
      (now.day == day) && is_at now (time_in (pieces (λ c. eqb (code c) b':') time))
  is_time now _ = false

  abbrev cron_of : Json → Result String
  cron_of (str t) = ok t
  cron_of _ = raised attribute_error

  abbrev is_enabled : Spoke → Bool
  is_enabled s =
      is_approved s && same_json (get_default "reclone_schedule_enabled" s.config null) (str "on")

  -- The schedule of a spoke that is due now. A schedule that is no text raises.
  abbrev due_as : Clock → Result String → Result (Option String)
  due_as now (raised e) = raised e
  due_as now (ok cron) =
      if is_time now (words (lower (strip cron))) then ok (some cron) else ok none

  unfoldable pub due_schedule : Clock → Spoke → Result (Option String)
  due_schedule now s =
      if is_enabled s
      then due_as now (cron_of (get_default "reclone_schedule_cron" s.config (str "sunday 02:00")))
      else ok none

  module _ ⦃commands : Codec Command⦄ ⦃entries : Codec AuditEntry⦄ where
    abbrev pub reclone : Draw → String → Spoke → String → Exec (Unit {0})
    reclone g tenant_id s cron = do
      enqueue_command g.now (task_command g s.id tenant_id "reclone_schedule" [])
      append_audit g.now (
          task_audit g s.id tenant_id "schedule" (resolve s.processing_mode "schedules") "pending"
            (joined "Scheduled reclone: " cron))

    abbrev pub triggered : Draw → Clock → String → Spoke → String → Dict String → Disk → Pass
    triggered g now tenant_id s cron triggers d =
        let run = reclone g tenant_id s cron d in (run.0, put s.id now.key triggers, run.1)

    abbrev pub schedule_as :
        Draw → Clock → String → Spoke → Result (Option String) → Dict String → Disk → Pass
    schedule_as g now tenant_id s (raised e) triggers d = (raised e, triggers, d)
    schedule_as g now tenant_id s (ok none) triggers d = (ok tt, triggers, d)
    schedule_as g now tenant_id s (ok (some cron)) triggers d =
        if same_minute (get s.id triggers) now.key
        then (ok tt, triggers, d)
        else triggered g now tenant_id s cron triggers d

    unfoldable pub schedule_spokes : Draw → Clock → String → List Spoke → Dict String → Disk → Pass
    schedule_spokes g now tenant_id [] triggers d = (ok tt, triggers, d)
    schedule_spokes g now tenant_id (s ∷ spokes) triggers d =
        go_on (schedule_as g now tenant_id s (due_schedule now s) triggers d)
          (schedule_spokes g now tenant_id spokes)

    module _ ⦃format : SpokeFormat⦄ ⦃times : Instants⦄ where
      unfoldable pub schedule_tenants : Draw → Clock → List Tenant → Dict String → Disk → Pass
      schedule_tenants g now [] triggers d = (ok tt, triggers, d)
      schedule_tenants g now (t ∷ ts) triggers d =
          go_on (schedule_spokes g now t.id (load_spokes t.id d) triggers d)
            (schedule_tenants g now ts)

      unfoldable pub schedule_pass :
          ⦃tenants : Codec Tenant⦄ → Draw → Clock → Dict String → Disk → Pass
      schedule_pass g now triggers d =
          schedule_tenants g now (list_tenants false d) triggers (restore_missing d)

      abbrev overdue : ℕ → ℕ → Spoke → Exec (Unit {0}) → Exec (Unit {0})
      overdue now timeout s recover = elim s.last_seen [
        | none ↦ return tt
        | some at ↦ if ltb timeout (now - at) then recover else return tt
      ]

      abbrev offline_for : ℕ → Spoke → ℕ
      offline_for now s = elim s.last_seen [ none ↦ 0 | some at ↦ now - at ]

      abbrev recover : Hours → Draw → String → Spoke → Exec (Unit {0})
      recover hours g tenant_id s = do
        let shown = joined (hours.show (offline_for g.now s)) "h"
        enqueue_command g.now (
            task_command g s.id tenant_id "auto_recovery"
              (("reason", str (joined "Spoke offline for " shown)) ∷ []))
        append_audit g.now (
            task_audit g s.id tenant_id "auto_recovery" (resolve s.processing_mode "heartbeat")
              "pending" (joined "Offline " (joined shown " — recovery queued")))

      abbrev recover_as : Hours → Draw → String → Spoke → Option ℕ → Exec (Unit {0})
      recover_as hours g tenant_id s none = raise value_error
      recover_as hours g tenant_id s (some timeout) =
          overdue g.now timeout s (recover hours g tenant_id s)

      unfoldable pub recover_spoke : Hours → Draw → String → Spoke → Exec (Unit {0})
      recover_spoke hours g tenant_id s =
          if is_approved s
          then recover_as hours g tenant_id s
              (hours.float_of (get_default "vm_silent_timeout" s.config (num 24)))
          else return tt

      abbrev for_spokes : (String → Spoke → Exec (Unit {0})) → Tenant → Exec (Unit {0})
      for_spokes body t = do spokes ← look (load_spokes t.id); for_each spokes (body t.id)

      -- One pass of the recovery; its events are left out.
      unfoldable pub auto_recovery_pass : ⦃tenants : Codec Tenant⦄ → Hours → Draw → Exec (Unit {0})
      auto_recovery_pass hours g = do
        write restore_missing
        tenants ← look (list_tenants false)
        for_each tenants (for_spokes (recover_spoke hours g))

      abbrev gkill_spoke : Draw → String → String → Spoke → Exec (Unit {0})
      gkill_spoke g value tenant_id s = if not (is_approved s) then return tt else do
        let mode = resolve s.processing_mode "gkill"
        (if mode == "distributed"
            then enqueue_command g.now
                (task_command g s.id tenant_id "gkill_update" (("value", str value) ∷ []))
            else return tt)
        append_audit g.now
            (task_audit g s.id tenant_id "gkill" mode "success" (joined "gkill=" value))

      -- `_broadcast_gkill`, behind its event.
      unfoldable pub broadcast_gkill : ⦃tenants : Codec Tenant⦄ → Draw → String → Exec (Unit {0})
      broadcast_gkill g value = do
        write restore_missing
        tenants ← look (list_tenants false)
        for_each tenants (for_spokes (gkill_spoke g value))

-- The value that is fetched.
unfoldable pub gkill_value : String → String
gkill_value text =
    let value = lower (strip text) in if (value == "on") || (value == "off") then value else "off"
