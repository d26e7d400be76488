-- ===== src/SpokeRoutes/Registration/Keeps.antt =====
-- What the steps of a registration leave alone: a relation of states in which its writes lie
-- (app/routers/spokes.py, `register_spoke`).
use webui_hub.Prelude.{ℕ, String, not, ◌&&◌, Option, none, some, ◌==◌}
use webui_hub.Text.{strip, lower}
use webui_hub.Json.{Json, Dict}
use webui_hub.Exec.{write, ok}
use webui_hub.Codec.{Codec}
use webui_hub.Crypto.{Fernet}
use webui_hub.Hub.{Task, Frame, Keeps, on_disk, emit, quiet, bind-Keeps, if-Keeps, when-Keeps}
use webui_hub.Models.{Tenant, Spoke, PendingSpoke}
use webui_hub.Store.Tenants.{get_tenant_by_hint}
use webui_hub.Store.Spokes.Format.{SpokeFormat, Instants}
use webui_hub.Store.Pending.{PendingFormat, save_pending_spoke, rekey_pending_spoke}
use webui_hub.SpokeRoutes.Registration.{requested_id, resolved_hint, hint_or_log}
use webui_hub.SpokeRoutes.Registration.Names.{
  RegisterPayload, Uuids, is_valid_uuid, Given, Request, reg_log_append,
  ensure_name_available_for_tenant, refuse, unless_pending, unless_approved,
}
use webui_hub.SpokeRoutes.Registration.Pending.{
  existing_pending, save_waiting, register_pending, take_pending_id, or_by_hostname, reject_psk,
}

module _ (F : Frame)
    (logged : (g : Given) (event : String) (entry : Dict Json)
      → Keeps F (reg_log_append g event entry))
    (emitted : (event : Dict Json) → Keeps F (emit event)) where
  refuse-Keeps : (g : Given) (event : String) (entry : Dict Json) → Keeps F (refuse g event entry)
  refuse-Keeps g event entry = bind-Keeps F (logged g event entry) (λ _. quiet F _)

  unless_pending-Keeps :
      (g : Given) (hostname : String) (entry : Dict Json) (p : Option PendingSpoke)
      → Keeps F (unless_pending g hostname entry p)
  unless_pending-Keeps g hostname entry none = quiet F _
  unless_pending-Keeps g hostname entry (some p) =
      if-Keeps F (p.hostname == hostname) (quiet F _) (refuse-Keeps g _ entry)

  unless_approved-Keeps :
      (g : Given) (hostname : String) (entry : Dict Json) (s : Option Spoke)
      (next : Task (Unit {0}))
      → Keeps F next
      → Keeps F (unless_approved g hostname entry s next)
  unless_approved-Keeps g hostname entry none next k = k
  unless_approved-Keeps g hostname entry (some s) next k =
      if-Keeps F (s.hostname == hostname) k (refuse-Keeps g _ entry)

  module _ ⦃format : SpokeFormat⦄ ⦃times : Instants⦄ ⦃pending : PendingFormat⦄ where
    pub ensure_name-Keeps :
        (g : Given) (name tenant_id hostname exclude : String) (context : Dict Json)
        → Keeps F (ensure_name_available_for_tenant g name tenant_id hostname exclude context)
    unfolding ensure_name_available_for_tenant
    ensure_name-Keeps g name tenant_id hostname exclude context =
        if-Keeps F (tenant_id == "") (quiet F _) (
          bind-Keeps F (quiet F _) (λ approved.
            unless_approved-Keeps g hostname _ approved _
              (bind-Keeps F (quiet F _) (unless_pending-Keeps g hostname _))))

    -- Where the writes of pending spokes lie in the relation, the whole branch does.
    module _ (saved : (p : PendingSpoke) → Keeps F (on_disk (write (save_pending_spoke p))))
        (rekeyed : (old new : String) → Keeps F (on_disk (rekey_pending_spoke old new))) where
      take_pending_id-Keeps :
          (r : Request) (p : Option PendingSpoke) → Keeps F (take_pending_id r p)
      take_pending_id-Keeps r none = quiet F _
      take_pending_id-Keeps r (some p) =
          if-Keeps F (not (r.spoke_id == "") && not (p.id == r.spoke_id))
            (bind-Keeps F (rekeyed p.id r.spoke_id) (λ _. quiet F _)) (quiet F _)

      or_by_hostname-Keeps : (r : Request) (p : Option PendingSpoke) → Keeps F (or_by_hostname r p)
      or_by_hostname-Keeps r none = bind-Keeps F (quiet F _) (take_pending_id-Keeps r)
      or_by_hostname-Keeps r (some p) = quiet F _

      existing_pending-Keeps : (r : Request) → Keeps F (existing_pending r)
      unfolding existing_pending
      existing_pending-Keeps r =
          bind-Keeps F (if-Keeps F (r.spoke_id == "") (quiet F _) (quiet F _))
            (or_by_hostname-Keeps r)

      save_waiting-Keeps :
          (g : Given) (r : Request) (p : Option PendingSpoke) → Keeps F (save_waiting g r p)
      save_waiting-Keeps g r none =
          bind-Keeps F (saved _)
            (λ _. bind-Keeps F (logged g _ _) (λ _. bind-Keeps F (emitted _) (λ _. quiet F _)))
      save_waiting-Keeps g r (some p) =
          bind-Keeps F (when-Keeps F _ (saved _))
            (λ _. bind-Keeps F (logged g _ _) (λ _. quiet F _))

      pub register_pending-Keeps : (g : Given) (r : Request) → Keeps F (register_pending g r)
      unfolding register_pending
      register_pending-Keeps g r = bind-Keeps F (existing_pending-Keeps r) (λ existing.
          bind-Keeps F (ensure_name-Keeps g _ _ _ _ _) (λ _. save_waiting-Keeps g r existing))

    module _ ⦃fernet : Fernet⦄ where
      pub reject-Keeps : (g : Given) (r : Request) (n : ℕ) → Keeps F (reject_psk g r n)
      reject-Keeps g r n = bind-Keeps F (logged g _ _) (λ _. quiet F _)

  pub requested_id-Keeps :
      ⦃uuids : Uuids⦄ → (g : Given) (q : RegisterPayload) → Keeps F (requested_id g q)
  unfolding requested_id
  requested_id-Keeps g q =
      let id = lower (strip q.spoke_id) in
      if-Keeps F (not (id == "") && not (is_valid_uuid id))
        (bind-Keeps F (logged g "invalid_spoke_id" _) (λ _. quiet F _)) (quiet F _)

  hint_or_log-Keeps :
      (g : Given) (q : RegisterPayload) (t : Option Tenant) → Keeps F (hint_or_log g q t)
  hint_or_log-Keeps g q none = bind-Keeps F (logged g _ _) (λ _. quiet F _)
  hint_or_log-Keeps g q (some t) = quiet F _

  pub resolved_hint-Keeps :
      ⦃tenants : Codec Tenant⦄ → (g : Given) (q : RegisterPayload) → Keeps F (resolved_hint g q)
  unfolding resolved_hint
  resolved_hint-Keeps g q = if-Keeps F (strip q.tenant_id_hint == "") (quiet F (λ h. ok "")) (
      bind-Keeps F (quiet F (λ h. ok (get_tenant_by_hint (strip q.tenant_id_hint) h.disk)))
        (hint_or_log-Keeps g q))
