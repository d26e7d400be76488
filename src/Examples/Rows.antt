-- ===== src/Examples/Rows.antt =====
-- The concrete codecs of users, processing modes, commands and audit entries.
use webui_hub.Prelude.{refl}
use webui_hub.Codec.{Codec}
use webui_hub.Models.{User, TenantRole, ProcessingMode, PendingSpoke, Command, AuditEntry}
use webui_hub.Examples.Codecs.{text, number, flag, any_json, pair, opt, list, via}

abbrev pub role_codec : Codec TenantRole
role_codec =
    via (pair text (text)) (λ r. (r.tenant_id, r.role))
      (λ p. record { tenant_id = p.0; role = p.1 }) (λ r. refl)

instance abbrev pub user_codec : Codec User
user_codec =
    via (pair text (pair text (pair text (pair flag (pair (list role_codec) (number))))))
      (λ r. (
        r.id,
        (r.username, (r.hashed_password, (r.is_superadmin, (r.tenant_roles, r.created_at)))),
      ))
      (λ p. record {
        id = p.0;
        username = p.1.0;
        hashed_password = p.1.1.0;
        is_superadmin = p.1.1.1.0;
        tenant_roles = p.1.1.1.1.0;
        created_at = p.1.1.1.1.1;
      })
      (λ r. refl)

abbrev pub mode_codec : Codec ProcessingMode
mode_codec =
    via
      (pair text (
        pair (opt text) (
          pair (opt text)
            (pair (opt text) (pair (opt text) (pair (opt text) (pair (opt text) ((opt text)))))))))
      (λ r. (
        r.global_mode,
        (
          r.aruba_polling,
          (r.teams_webhook, (r.email, (r.heartbeat, (r.gkill, (r.schedules, r.repo_sync))))),
        ),
      ))
      (λ p. record {
        global_mode = p.0;
        aruba_polling = p.1.0;
        teams_webhook = p.1.1.0;
        email = p.1.1.1.0;
        heartbeat = p.1.1.1.1.0;
        gkill = p.1.1.1.1.1.0;
        schedules = p.1.1.1.1.1.1.0;
        repo_sync = p.1.1.1.1.1.1.1;
      })
      (λ r. refl)

instance abbrev pub command_codec : Codec Command
command_codec =
    via
      (pair text (
        pair text (
          pair text (
            pair text (
              pair text (
                pair (list (pair text any_json)) (
                  pair text (
                    pair number (
                      pair number (
                        pair (opt number)
                          (pair (opt number) ((opt (list (pair text any_json)))))))))))))))
      (λ r. (
        r.id,
        (
          r.spoke_id,
          (
            r.tenant_id,
            (
              r.target,
              (
                r.type,
                (
                  r.payload,
                  (
                    r.status,
                    (r.created_at, (r.expires_at, (r.delivered_at, (r.executed_at, r.result)))),
                  ),
                ),
              ),
            ),
          ),
        ),
      ))
      (λ p. record {
        id = p.0;
        spoke_id = p.1.0;
        tenant_id = p.1.1.0;
        target = p.1.1.1.0;
        type = p.1.1.1.1.0;
        payload = p.1.1.1.1.1.0;
        status = p.1.1.1.1.1.1.0;
        created_at = p.1.1.1.1.1.1.1.0;
        expires_at = p.1.1.1.1.1.1.1.1.0;
        delivered_at = p.1.1.1.1.1.1.1.1.1.0;
        executed_at = p.1.1.1.1.1.1.1.1.1.1.0;
        result = p.1.1.1.1.1.1.1.1.1.1.1;
      })
      (λ r. refl)

instance abbrev pub audit_codec : Codec AuditEntry
audit_codec =
    via
      (pair text (
        pair text (
          pair text (
            pair text (
              pair text (
                pair text
                  (pair text (pair text (pair (opt (list (pair text any_json))) (number))))))))))
      (λ r. (
        r.id,
        (
          r.spoke_id,
          (
            r.tenant_id,
            (
              r.task_type,
              (r.execution_mode, (r.status, (r.detail, (r.initiated_by, (r.result, r.timestamp))))),
            ),
          ),
        ),
      ))
      (λ p. record {
        id = p.0;
        spoke_id = p.1.0;
        tenant_id = p.1.1.0;
        task_type = p.1.1.1.0;
        execution_mode = p.1.1.1.1.0;
        status = p.1.1.1.1.1.0;
        detail = p.1.1.1.1.1.1.0;
        initiated_by = p.1.1.1.1.1.1.1.0;
        result = p.1.1.1.1.1.1.1.1.0;
        timestamp = p.1.1.1.1.1.1.1.1.1;
      })
      (λ r. refl)

instance abbrev pub pending_codec : Codec PendingSpoke
pending_codec =
    via
      (pair text (
        pair text (
          pair text (
            pair text
              (pair text (pair (list (pair text any_json)) (pair number ((opt number)))))))))
      (λ r. (
        r.id,
        (
          r.hostname,
          (
            r.label,
            (r.spoke_name, (r.tenant_hint, (r.seed_config, (r.registered_at, r.last_seen)))),
          ),
        ),
      ))
      (λ p. record {
        id = p.0;
        hostname = p.1.0;
        label = p.1.1.0;
        spoke_name = p.1.1.1.0;
        tenant_hint = p.1.1.1.1.0;
        seed_config = p.1.1.1.1.1.0;
        registered_at = p.1.1.1.1.1.1.0;
        last_seen = p.1.1.1.1.1.1.1;
      })
      (λ r. refl)
