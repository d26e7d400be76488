-- ===== src/CommandRoutes/Queued.antt =====
-- A command that a user queues reaches the spoke.
use webui_hub.Prelude.{ℕ, String, ◌≡◌, refl, ap, ◌∙◌, List, [], ◌∷◌, ◌++◌}
use webui_hub.Disk.{Disk, queue_path, audit_path, read_rows-same, open_file-write_ne, path_eq-kind}
use webui_hub.Exec.{ok}
use webui_hub.Codec.{Codec, validate_all}
use webui_hub.Models.{Command, AuditEntry}
use webui_hub.Store.Queue.{
  load_queue, load_queue-same, enqueue_command, active, open_file-save_queue,
}
use webui_hub.Store.Audit.{load_audit, append_audit}
use webui_hub.CommandRoutes.{enqueue_and_log}

module _ ⦃entries : Codec AuditEntry⦄ where
  pub append_audit-ok :
      (now : ℕ) (e : AuditEntry) (log : List AuditEntry) (d : Disk)
      → load_audit e.tenant_id e.spoke_id d ≡ ok log
      → (append_audit now e d).0 ≡ ok tt
  unfolding append_audit
  append_audit-ok now e log d h = rw h

  module _ ⦃commands : Codec Command⦄ where
    -- The audit log is another file than the queues.
    pub load_queue-append_audit :
        (now : ℕ) (e : AuditEntry) (t s : String) (log : List AuditEntry) (d : Disk)
        → load_audit e.tenant_id e.spoke_id d ≡ ok log
        → load_queue t s (append_audit now e d).1 ≡ load_queue t s d
    unfolding append_audit
    load_queue-append_audit now e t s log d h = rw h (
        load_queue-same t s _ d (
          open_file-write_ne (audit_path e.tenant_id e.spoke_id) (queue_path t s) _ d
            (path_eq-kind _ _ refl)))

    load_audit-enqueue_command :
        (now : ℕ) (c : Command) (t s : String) (cmds : List Command) (d : Disk)
        → load_queue c.tenant_id c.spoke_id d ≡ ok cmds
        → load_audit t s (enqueue_command now c d).1 ≡ load_audit t s d
    unfolding enqueue_command load_audit
    load_audit-enqueue_command now c t s cmds d h = rw h (
        ap validate_all (
          read_rows-same (audit_path t s) _ d (
            open_file-save_queue c.tenant_id c.spoke_id (active now cmds ++ c ∷ []) d
              (audit_path t s) (path_eq-kind _ _ refl))))

    enqueue-ok :
        (now : ℕ) (c : Command) (d : Disk) {cmds : List Command}
        → load_queue c.tenant_id c.spoke_id d ≡ ok cmds
        → (enqueue_command now c d).0 ≡ ok tt
    unfolding enqueue_command
    enqueue-ok now c d h = rw h refl

    -- With a queue and a log that load, the command is answered.
    pub enqueue_and_log-ok :
        (now : ℕ) (c : Command) (e : AuditEntry) (cmds : List Command) (log : List AuditEntry)
        (d : Disk)
        → load_queue c.tenant_id c.spoke_id d ≡ ok cmds
        → load_audit e.tenant_id e.spoke_id d ≡ ok log
        → (enqueue_and_log now c e d).0 ≡ ok c
    enqueue_and_log-ok now c e cmds log d queue audit = rw (enqueue-ok now c d queue) (
        rw
          (append_audit-ok now e log _
            (load_audit-enqueue_command now c e.tenant_id e.spoke_id cmds d queue ∙ audit))
          refl)
