-- ===== src/SpokeRoutes/Reports/Applied.antt =====
-- The acknowledgement of a configuration push (app/routers/spokes.py, `_handle_spoke_ack`).
use webui_hub.Prelude.{
  ℕ, String, ◌≡◌, ◌<◌, refl, ◌∙◌, true, none, some, List, ◌==◌, ltb, find, update_first, lt→ltb,
  if◌then◌else◌,
}
use webui_hub.Disk.{Disk, queue_path, path_eq-kind}
use webui_hub.Exec.{ok}
use webui_hub.Codec.{Codec}
use webui_hub.Crypto.{JsonText}
use webui_hub.Hub.{Hub, ◌>>=◌}
use webui_hub.Models.{Spoke, Command, AuditEntry}
use webui_hub.Store.Spokes.{get_spoke, save_spoke, has_state, mark_spoke_config_applied}
use webui_hub.Store.Spokes.Format.{SpokeFormat, Instants, migrate_assigned_site}
use webui_hub.Store.Spokes.Saved.{get_spoke-save_spoke}
use webui_hub.Store.Spokes.Frame.{get_spoke-same, open_file-save_spoke}
use webui_hub.Store.Queue.{
  load_queue, get_command, ack_command, save_queue, executed, load_queue-same,
  load_queue-save_queue_self, open_file-save_queue,
}
use webui_hub.Store.Push.Once.{migrated-bookkeeping}
use webui_hub.SpokeRoutes.Reports.{Drawn, AckPayload, mark_acked, handle_spoke_ack, acked_version}

module _ ⦃json : JsonText⦄ ⦃format : SpokeFormat⦄ ⦃times : Instants⦄ ⦃entries : Codec AuditEntry⦄
    ⦃commands : Codec Command⦄ where
  abbrev pub acked_spoke : ℕ → ℕ → Spoke → Spoke
  acked_spoke now version s = record s {
    applied_config_version =
        if ltb s.applied_config_version version then version else s.applied_config_version;
    last_config_applied_at = some now;
  }

  abbrev acked_queue : ℕ → String → List Command → List Command
  acked_queue now id cmds = update_first (λ c. c.id == id) (executed now none) cmds

  marked :
      (g : Drawn) (t i : String) (c : Command) (version : ℕ) (h : Hub)
      → (c.type == "config_update") ≡ true
      → acked_version c.payload ≡ ok version
      → 0 < version
      → mark_acked g t i true (some c) h
        ≡ (ok tt, record h { disk = mark_spoke_config_applied g.now t i version h.disk })
  unfolding ◌>>=◌
  marked g t i c version h update read positive =
      rw update (rw read (rw (lt→ltb 0 version positive) refl))

  -- An acknowledgement without a result, of a configuration push of a version above 0 that is in a
  -- queue that loads, for a spoke that has state and migrated site fields: the command is executed,
  -- the spoke has the version as applied, unless it had a later one, and nothing is broadcast.
  pub handle_spoke_ack_lem :
      (g : Drawn) (s : Spoke) (p : AckPayload) (c : Command) (cmds : List Command) (version : ℕ)
      (h : Hub)
      → load_queue s.tenant_id s.id h.disk ≡ ok cmds
      → find (λ x. x.id == p.command_id) cmds ≡ some c
      → (c.type == "config_update") ≡ true
      → acked_version c.payload ≡ ok version
      → 0 < version
      → p.result ≡ none
      → get_spoke s.tenant_id s.id h.disk ≡ some s
      → has_state s ≡ true
      → migrate_assigned_site s ≡ s
      → let after = (handle_spoke_ack g s.tenant_id s.id p h).1 in
        ((handle_spoke_ack g s.tenant_id s.id p h).0 ≡ ok tt)
        × (get_spoke s.tenant_id s.id after.disk ≡ some (acked_spoke g.now version s))
        × (load_queue s.tenant_id s.id after.disk ≡ ok (acked_queue g.now p.command_id cmds))
        × (after.broadcasts ≡ h.broadcasts)
  unfolding handle_spoke_ack get_command ack_command ◌>>=◌ mark_spoke_config_applied
  handle_spoke_ack_lem g s p c cmds version h loads there update read positive no_result found
        stateful migrated =
      rw (loads, no_result)
        (rw loads (
          rw there (
            rw
              (marked g s.tenant_id s.id c version (record h { disk = acked }) update read positive)
              (rw spoke_there (
                refl,
                get_spoke-save_spoke (acked_spoke g.now version s) acked stateful
                    (migrated-bookkeeping s _ _ _ migrated),
                load_queue-same s.tenant_id s.id (save_spoke (acked_spoke g.now version s) acked)
                      acked
                      (open_file-save_spoke (queue_path s.tenant_id s.id)
                        (acked_spoke g.now version s) acked refl refl)
                    ∙ load_queue-save_queue_self s.tenant_id s.id
                        (acked_queue g.now p.command_id cmds) h.disk,
                refl,
              )))))
    where
      acked : Disk
      acked = save_queue s.tenant_id s.id (acked_queue g.now p.command_id cmds) h.disk

      spoke_there : get_spoke s.tenant_id s.id acked ≡ some s
      spoke_there =
          get_spoke-same s.tenant_id s.id acked h.disk
            (λ q other _. open_file-save_queue _ _ _ _ q (path_eq-kind _ q other))
          ∙ found
