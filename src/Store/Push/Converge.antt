-- ===== src/Store/Push/Converge.antt =====
-- After a push is applied, the spoke is in step with its tenant.
use webui_hub.Prelude.{
  ℕ, String, ◌≡◌, refl, sym, ◌∙◌, true, false, not, ◌||◌, Option, none, some, List, ◌==◌, arith,
  eq_refl,
}
use webui_hub.Disk.{
  Disk, FilePath, open_file, path_eq-kind, tenants_path, tenants_bak_path, global_config_path,
}
use webui_hub.Exec.{ok}
use webui_hub.Codec.{Codec}
use webui_hub.Models.{Tenant, Spoke, Command}
use webui_hub.Crypto.{Fernet, JsonText}
use webui_hub.Store.Tenants.{get_tenant, restore_missing}
use webui_hub.Store.Tenants.Purge.{
  get_tenant-restore_missing, get_tenant-same, open_file-restore_missing,
}
use webui_hub.Store.Spokes.{
  get_spoke, save_spoke, is_approved, has_state, mark_spoke_config_applied,
}
use webui_hub.Store.Spokes.Format.{SpokeFormat, Instants, migrate_assigned_site}
use webui_hub.Store.Spokes.Saved.{get_spoke-save_spoke}
use webui_hub.Store.Spokes.Frame.{open_file-save_spoke}
use webui_hub.Store.Queue.{load_queue, open_file-save_queue}
use webui_hub.Store.Payload.Whole.{build_spoke_config_payload}
use webui_hub.Store.Push.{
  Digest, is_pending, has_push, ensure_config_update_command, check_and_fix_config_drift, fix_drift,
}
use webui_hub.Store.Push.Once.{
  payload-same, payload_at, pushed_spoke, after_push, ensure_pushes, spoke-after_push,
  migrated-bookkeeping,
}

module _ ⦃fernet : Fernet⦄ ⦃json : JsonText⦄ ⦃digest : Digest⦄ ⦃format : SpokeFormat⦄
    ⦃times : Instants⦄ ⦃commands : Codec Command⦄ ⦃tenants : Codec Tenant⦄ (new_id : String)
    (now : ℕ) (s : Spoke) (cmds : List Command) (d : Disk) where
  abbrev applied_spoke : ℕ → Spoke
  applied_spoke at = record (pushed_spoke new_id now s cmds d) {
    applied_config_version = s.config_version;
    last_config_applied_at = some at;
  }

  abbrev after_apply : ℕ → Disk
  after_apply at = save_spoke (applied_spoke at) (after_push new_id now s cmds d)

  kept_file :
      (at : ℕ) (p : FilePath)
      → ("spokes" == p.kind) ≡ false
      → ("spoke_state" == p.kind) ≡ false
      → ("queue" == p.kind) ≡ false
      → open_file p (after_apply at) ≡ open_file p (restore_missing d)
  kept_file at p a b c =
      open_file-save_spoke p _ _ a b
      ∙ (open_file-save_spoke p _ _ a b ∙ open_file-save_queue _ _ _ _ p (path_eq-kind _ p c))

  -- The heartbeat after the report reads the tenant and the payload that were pushed.
  same_tenant :
      (at : ℕ)
      → get_tenant s.tenant_id (restore_missing (after_apply at))
        ≡ get_tenant s.tenant_id (restore_missing d)
  same_tenant at = rw get_tenant-restore_missing (
      get_tenant-same s.tenant_id (after_apply at) (restore_missing d)
        (kept_file at tenants_path refl refl refl) (kept_file at tenants_bak_path refl refl refl))

  same_payload :
      (at : ℕ)
      → build_spoke_config_payload
          (get_tenant s.tenant_id (restore_missing d))
          (restore_missing (after_apply at))
        ≡ payload_at new_id now s cmds d
  same_payload at = payload-same _ _ _ (
      open_file-restore_missing global_config_path _ (path_eq-kind _ _ refl)
      ∙ kept_file at global_config_path refl refl refl)

  current :
      is_approved s ≡ true
      → (at : ℕ) → (not (is_approved (applied_spoke at)) || is_pending (applied_spoke at)) ≡ false
  current a at = ground (arith, a)

  fix_quiet :
      (at : ℕ) (o : Option Tenant) (e : Disk)
      → get_tenant s.tenant_id (restore_missing d) ≡ o
      → build_spoke_config_payload o e ≡ payload_at new_id now s cmds d
      → (fix_drift s.tenant_id (applied_spoke at) o e).0 ≡ ok false
  fix_quiet at none e there same = refl
  fix_quiet at (some t) e there same = rw (same, there, eq_refl)

  -- A push is due to an approved spoke that has state and migrated site fields, and its queue loads
  -- and holds none of the wanted version. After the push, and the spoke's report that it applied
  -- the version, the heartbeat finds no drift: one correction is enough.
  pub check_and_fix-after_apply :
      get_spoke s.tenant_id s.id d ≡ some s
      → has_state s ≡ true
      → migrate_assigned_site s ≡ s
      → is_approved s ≡ true
      → is_pending s ≡ true
      → load_queue s.tenant_id s.id d ≡ ok cmds
      → has_push s.config_version cmds ≡ ok false
      → (at : ℕ)
      → (check_and_fix_config_drift s.tenant_id s.id (
          mark_spoke_config_applied at s.tenant_id s.id s.config_version
            (ensure_config_update_command new_id now s.tenant_id s.id d).1)).0
        ≡ ok false
  check_and_fix-after_apply found stateful migrated approved pending queue none_there at =
      rw (ensure_pushes new_id now s cmds d found approved pending queue none_there) (
        rw marked (
          unfold check_and_fix_config_drift in
          rw
            (get_spoke-save_spoke (applied_spoke at) (after_push new_id now s cmds d) stateful
              (migrated-bookkeeping s _ _ _ migrated))
            (rw (current approved at)
              (fix_quiet at _ _ (sym (same_tenant at)) (rw (same_tenant at) (same_payload at))))))
    where
      marked :
          mark_spoke_config_applied at s.tenant_id s.id s.config_version
            (after_push new_id now s cmds d)
          ≡ after_apply at
      marked =
          unfold mark_spoke_config_applied in
          rw (spoke-after_push new_id now s cmds d stateful migrated) (rw pending)
