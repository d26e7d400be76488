-- ===== src/Tasks/Notifications/Dropped.antt =====
-- A notification that no spoke is told of (`send_notification` of app/tasks.py).
use webui_hub.Prelude.{
  String, ◌≡◌, refl, ap, Bool, true, false, ◌&&◌, none, [], Bool-cases, Option-cases, inl, inr,
}
use webui_hub.Json.{Json, Dict}
use webui_hub.Disk.{Disk}
use webui_hub.Exec.{ok}
use webui_hub.Codec.{Codec}
use webui_hub.Crypto.{Fernet, JsonText}
use webui_hub.Models.{Tenant, Command, AuditEntry}
use webui_hub.Store.Tenants.{restore_missing}
use webui_hub.Store.Spokes.Format.{SpokeFormat, Instants}
use webui_hub.Tasks.{Draw}
use webui_hub.Tasks.Notifications.{
  Plan, is_given, plan_teams, plan_email, plan_for, get_notification_config, send_notification,
  send_with,
}

-- Nothing is sent from the hub.
record Silent (p : Plan) : Type 0 where
  no_deliveries : p.deliveries ≡ []
  not_centralized : p.centralized ≡ false

plan_teams-Silent :
    (cfg : Dict Json) (title message : String) (p : Plan)
    → Silent p
    → Silent (plan_teams "distributed" cfg title message p)
unfolding plan_teams
plan_teams-Silent cfg title message p s = elim (Bool-cases (is_given "teams_webhook" cfg)) [
  | inl e ↦ rw e (record { no_deliveries = s.no_deliveries; not_centralized = s.not_centralized })
  | inr e ↦ rw e s
]

plan_email-Silent :
    (cfg : Dict Json) (title message : String) (p : Plan)
    → Silent p
    → Silent (plan_email "distributed" cfg title message p)
unfolding plan_email
plan_email-Silent cfg title message p s =
    elim (Bool-cases (is_given "smtp_host" cfg && is_given "to_emails" cfg)) [
      | inl e ↦
          rw e (record { no_deliveries = s.no_deliveries; not_centralized = s.not_centralized })
      | inr e ↦ rw e s
    ]

plan_for-Silent :
    (cfg : Dict Json) (title message : String)
    → Silent (plan_for "distributed" none cfg title message)
unfolding plan_for
plan_for-Silent cfg title message = plan_email-Silent cfg title message _ (
    plan_teams-Silent cfg title message _ (record { no_deliveries = refl; not_centralized = refl }))

module _ ⦃fernet : Fernet⦄ ⦃json : JsonText⦄ ⦃tenants : Codec Tenant⦄ ⦃format : SpokeFormat⦄
    ⦃times : Instants⦄ ⦃commands : Codec Command⦄ ⦃entries : Codec AuditEntry⦄ where
  unsent :
      (g : Draw) (tenant_id title message : String) (d : Disk) (p : Plan)
      → Silent p
      → send_with g tenant_id "" title message p d ≡ (ok [], d)
  unsent g tenant_id title message d p s = elim (Bool-cases (p.distributed && false)) [
    | inl e ↦ cc (never p.distributed e)
    | inr e ↦ rw (e, s.not_centralized) (ap (λ l. (ok l, d)) s.no_deliveries)
  ]
    where
      never : (b : Bool) → (b && false) ≡ true → false ≡ true
      never true h = h
      never false h = h

  -- A notification that is about no spoke, in the mode in which the spokes notify, is lost: nothing
  -- is posted or mailed, and nothing is queued or logged, however the tenant is configured.
  pub send_notification-no_spoke :
      (g : Draw) (tenant_id title message : String) (d : Disk)
      → send_notification g tenant_id "" title message "distributed" d ≡ (ok [], restore_missing d)
  unfolding send_notification
  send_notification-no_spoke g tenant_id title message d =
      elim (Option-cases (get_notification_config tenant_id (restore_missing d))) [
        | inl e ↦ rw e refl
        | inr (cfg, e) ↦
            let s = plan_for-Silent cfg title message in
            rw e (
              unsent g tenant_id title message (restore_missing d)
                (plan_for "distributed" none cfg title message) s)
      ]
