-- ===== src/Store/Push/Once.antt =====
-- A push of the wanted version is queued once.
use webui_hub.Prelude.{
  ℕ, String, ◌≡◌, ◌<◌, refl, ap, ◌∙◌, Bool, true, false, not, ◌||◌, Option, none, some, List, [],
  ◌∷◌, ◌++◌, ◌+◌, ◌*◌, Bool-cases, inl, inr, arith, leb, eqb,
}
use webui_hub.Json.{Json, Dict, get, truthy}
use webui_hub.Disk.{Disk, open_file, queue_path, global_config_path, read_table-same}
use webui_hub.Exec.{Result, ok, raised}
use webui_hub.Codec.{Codec}
use webui_hub.Models.{Tenant, Spoke, Command, new_command, hour}
use webui_hub.Crypto.{Fernet, JsonText}
use webui_hub.Store.Tenants.{get_tenant, restore_missing}
use webui_hub.Store.Spokes.{get_spoke, save_spoke, is_approved, has_state}
use webui_hub.Store.Spokes.Format.{SpokeFormat, Instants, migrate_assigned_site}
use webui_hub.Store.Spokes.Saved.{get_spoke-save_spoke}
use webui_hub.Store.Spokes.Frame.{open_file-save_spoke}
use webui_hub.Store.Queue.{load_queue, save_queue, load_queue-same, load_queue-save_queue_self}
use webui_hub.Store.Usb.{get_global_usb_vidpids}
use webui_hub.Store.Payload.{hub_core_config}
use webui_hub.Store.Payload.Whole.{build_spoke_config_payload}
use webui_hub.Store.Push.{
  Digest, authoritative_config_hash, is_pending, is_wanted, payload_version, has_push, push_payload,
  push_config, ensure_config_update_command, found_or,
}

module _ ⦃fernet : Fernet⦄ ⦃json : JsonText⦄ where
  payload_version-push_payload :
      (config : Dict Json) (v : ℕ) → 0 < v → payload_version (push_payload config v) ≡ ok v
  unfolding payload_version get truthy
  payload_version-push_payload config v h = elim (Bool-cases (eqb v 0)) [
    | inl e ↦ ground (arith, e)
    | inr e ↦ rw e (rw json.int_of_num)
  ]

  found_or-append :
      (v : ℕ) (x : Command) (r : Result ℕ) {rest longer : Result Bool}
      → found_or r v x rest ≡ ok false
      → (rest ≡ ok false → longer ≡ ok true)
      → found_or r v x longer ≡ ok true
  found_or-append v x (raised e) h f = cc
  found_or-append v x (ok n) h f = ground (arith, h, f)

  -- Once a push of the version is behind the commands of the queue, it is found.
  has_push-append :
      (v : ℕ) (cmds : List Command) (c : Command)
      → has_push v cmds ≡ ok false
      → payload_version c.payload ≡ ok v
      → is_wanted c ≡ true
      → has_push v (cmds ++ c ∷ []) ≡ ok true
  unfolding has_push
  has_push-append v [] c h e w = rw (e, w) (ground arith)
  has_push-append v (x ∷ cmds) c h e w =
      found_or-append v x (payload_version x.payload) h (λ q. has_push-append v cmds c q e w)

-- The validator reads two fields, and a change of the others is not its concern.
pub migrated-bookkeeping :
    (s : Spoke) (hash : Option String) (applied : ℕ) (at : Option ℕ)
    → migrate_assigned_site s ≡ s
    → let r : Spoke = record s {
      last_pushed_config_hash = hash;
      applied_config_version = applied;
      last_config_applied_at = at;
    } in
      migrate_assigned_site r ≡ r
migrated-bookkeeping s hash applied at m =
    commutes
    ∙ ap
        (λ (x : Spoke). record x {
          last_pushed_config_hash = hash;
          applied_config_version = applied;
          last_config_applied_at = at;
        })
        m
  where
    commutes :
        migrate_assigned_site (record s {
          last_pushed_config_hash = hash;
          applied_config_version = applied;
          last_config_applied_at = at;
        })
        ≡ record (migrate_assigned_site s) {
          last_pushed_config_hash = hash;
          applied_config_version = applied;
          last_config_applied_at = at;
        }
    commutes = unfold migrate_assigned_site in ground arith

wanted_pos : (s : Spoke) → is_pending s ≡ true → 0 < s.config_version
wanted_pos s p = ground (arith, p)

due :
    (s : Spoke)
    → is_approved s ≡ true
    → is_pending s ≡ true
    → (not (is_approved s) || leb s.config_version s.applied_config_version) ≡ false
due s a p = ground (arith, a, p)

module _ ⦃fernet : Fernet⦄ ⦃json : JsonText⦄ ⦃digest : Digest⦄ ⦃format : SpokeFormat⦄
    ⦃times : Instants⦄ ⦃commands : Codec Command⦄ ⦃tenants : Codec Tenant⦄ where
  -- The payload is read from the tenant and `global_config.json`.
  pub payload-same :
      (tenant : Option Tenant) (d e : Disk)
      → open_file global_config_path d ≡ open_file global_config_path e
      → build_spoke_config_payload tenant d ≡ build_spoke_config_payload tenant e
  unfolding build_spoke_config_payload hub_core_config get_global_usb_vidpids
  payload-same none d e h = refl
  payload-same (some t) d e h = rw (read_table-same global_config_path d e h)

  module _ (new_id : String) (now : ℕ) (s : Spoke) (cmds : List Command) (d : Disk) where
    abbrev pub payload_at : Dict Json
    payload_at =
        build_spoke_config_payload (get_tenant s.tenant_id (restore_missing d)) (restore_missing d)

    abbrev pub push_at : Command
    push_at =
        new_command new_id now s.id s.tenant_id "spoke" "config_update"
          (push_payload payload_at s.config_version) (now + 24 * hour)

    abbrev pub hash_at : String
    hash_at = authoritative_config_hash (get_tenant s.tenant_id (restore_missing d)) payload_at

    abbrev pub pushed_spoke : Spoke
    pushed_spoke = record s { last_pushed_config_hash = some hash_at }

    abbrev pub after_push : Disk
    after_push =
        save_spoke pushed_spoke
          (save_queue s.tenant_id s.id (cmds ++ push_at ∷ []) (restore_missing d))

    -- What `ensure_config_update_command` does where a push is due and none is queued.
    pub ensure_pushes :
        get_spoke s.tenant_id s.id d ≡ some s
        → is_approved s ≡ true
        → is_pending s ≡ true
        → load_queue s.tenant_id s.id d ≡ ok cmds
        → has_push s.config_version cmds ≡ ok false
        → ensure_config_update_command new_id now s.tenant_id s.id d ≡ (ok tt, after_push)
    unfolding ensure_config_update_command
    ensure_pushes found approved pending queue none_there =
        rw found
          (rw (due s approved pending) (rw queue (rw none_there (unfold push_config in refl))))

    pub queue-after_push : load_queue s.tenant_id s.id after_push ≡ ok (cmds ++ push_at ∷ [])
    queue-after_push =
        load_queue-same s.tenant_id s.id after_push _
          (open_file-save_spoke (queue_path s.tenant_id s.id) _ _ refl refl)
        ∙ load_queue-save_queue_self s.tenant_id s.id _ _

    pub spoke-after_push :
        has_state s ≡ true
        → migrate_assigned_site s ≡ s
        → get_spoke s.tenant_id s.id after_push ≡ some pushed_spoke
    spoke-after_push h m =
        get_spoke-save_spoke pushed_spoke _ h (migrated-bookkeeping s (some hash_at) _ _ m)

    module _ (found : get_spoke s.tenant_id s.id d ≡ some s) (stateful : has_state s ≡ true)
        (migrated : migrate_assigned_site s ≡ s) (approved : is_approved s ≡ true)
        (pending : is_pending s ≡ true) (queue : load_queue s.tenant_id s.id d ≡ ok cmds)
        (none_there : has_push s.config_version cmds ≡ ok false) where
      -- Where a push is due to an approved spoke that has state and migrated site fields, and its
      -- queue loads and holds none of the wanted version, one `config_update` of the wanted version
      -- is put behind the queue; the next call finds it there and changes nothing.
      pub ensure_config_update_once :
          (later_id : String) (later : ℕ)
          → (load_queue s.tenant_id s.id
                (ensure_config_update_command new_id now s.tenant_id s.id d).1
              ≡ ok (cmds ++ push_at ∷ []))
            × (ensure_config_update_command later_id later s.tenant_id s.id
                  (ensure_config_update_command new_id now s.tenant_id s.id d).1
                ≡ (ok tt, (ensure_config_update_command new_id now s.tenant_id s.id d).1))
      ensure_config_update_once later_id later =
          rw (ensure_pushes found approved pending queue none_there) (
            queue-after_push,
            unfold ensure_config_update_command in
                rw (spoke-after_push stateful migrated) (
                  rw (due s approved pending) (
                    rw queue-after_push (
                      rw (
                        has_push-append s.config_version cmds push_at none_there
                          (payload_version-push_payload payload_at s.config_version
                            (wanted_pos s pending))
                          refl)))),
          )
