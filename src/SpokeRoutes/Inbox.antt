-- ===== src/SpokeRoutes/Inbox.antt =====
-- A due configuration push reaches the spoke that fetches its inbox.
use webui_hub.Prelude.{
  ℕ, String, ◌≡◌, true, false, some, List, [], ◌∷◌, ◌++◌, ◌+◌, ◌*◌, map, keep, arith, keep-append,
  lt→ltb,
}
use mathlib.Core.List.{map-append}
use webui_hub.Disk.{Disk}
use webui_hub.Exec.{ok}
use webui_hub.Codec.{Codec}
use webui_hub.Models.{Tenant, Spoke, Command, hour}
use webui_hub.Crypto.{Fernet, JsonText}
use webui_hub.Store.Spokes.{get_spoke, is_approved}
use webui_hub.Store.Spokes.Format.{SpokeFormat, Instants}
use webui_hub.Store.Queue.{load_queue, get_queued_commands, active, is_queued, delivered}
use webui_hub.Store.Push.{Digest, is_pending, has_push}
use webui_hub.Store.Push.Once.{ensure_pushes, push_at, queue-after_push}
use webui_hub.SpokeRoutes.{auth_spoke, get_inbox, get_spoke_inbox}

module _ ⦃fernet : Fernet⦄ ⦃json : JsonText⦄ ⦃digest : Digest⦄ ⦃format : SpokeFormat⦄
    ⦃times : Instants⦄ ⦃commands : Codec Command⦄ ⦃tenants : Codec Tenant⦄ where
  -- An inbox fetch with the right key, for an approved spoke to which a push is due and whose queue
  -- loads and holds none of the wanted version, returns the queued commands that have not expired,
  -- and behind them the push, all delivered.
  pub get_inbox-delivers_push :
      (new_id api_key : String) (now : ℕ) (s : Spoke) (cmds : List Command) (d : Disk)
      → auth_spoke s.tenant_id s.id api_key d ≡ ok s
      → get_spoke s.tenant_id s.id d ≡ some s
      → is_approved s ≡ true
      → is_pending s ≡ true
      → load_queue s.tenant_id s.id d ≡ ok cmds
      → has_push s.config_version cmds ≡ ok false
      → (get_inbox new_id now s.tenant_id s.id api_key d).0
        ≡ ok (
            map (delivered now) (keep is_queued (active now cmds))
            ++ delivered now (push_at new_id now s cmds d) ∷ [])
  unfolding get_inbox get_spoke_inbox get_queued_commands
  get_inbox-delivers_push new_id api_key now s cmds d let_in found approved pending queue
        none_there =
      rw let_in (
        rw (ensure_pushes new_id now s cmds d found approved pending queue none_there) (
          rw (queue-after_push new_id now s cmds d)
            (simp (keep-append, lt→ltb now (now + 24 * hour) (omega arith), map-append))))
