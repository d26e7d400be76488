-- ===== src/Store/Queue/Upkeep.antt =====
-- Listing and clearing command queues (app/store.py, lines 1507 to 1546).
pub mod Newest
use webui_hub.Prelude.{
  ℕ, String, ◌≡◌, refl, Bool, true, false, Option, none, some, List, [], ◌∷◌, ◌++◌, ◌+◌, length,
  if◌then◌else◌, ◌==◌,
}
use webui_hub.Disk.{Disk}
use webui_hub.Exec.{Exec, Result, ok, raised, return, reading, look, write, ◌>>=◌, ◌>>◌}
use webui_hub.Codec.{Codec}
use webui_hub.Models.{Command, Spoke}
use webui_hub.Store.Spokes.{load_spokes}
use webui_hub.Store.Spokes.Format.{SpokeFormat, Instants}
use webui_hub.Store.Queue.{load_queue, save_queue, active, sort_newest}

module _ ⦃commands : Codec Command⦄ where
  abbrev add_active : ℕ → Result (List Command) → Result (List Command) → Result (List Command)
  add_active now (raised e) rest = raised e
  add_active now (ok cmds) (raised e) = raised e
  add_active now (ok cmds) (ok rest) = ok (active now cmds ++ rest)

  -- The loop over the spokes of a tenant.
  unfoldable pub gather : ℕ → String → List Spoke → Disk → Result (List Command)
  gather now tenant_id [] d = ok []
  gather now tenant_id (s ∷ spokes) d =
      add_active now (load_queue tenant_id s.id d) (gather now tenant_id spokes d)

  abbrev active_of : ℕ → Result (List Command) → Result (List Command)
  active_of now (raised e) = raised e
  active_of now (ok cmds) = ok (active now cmds)

  abbrev pub sorted : Result (List Command) → Result (List Command)
  sorted (ok cmds) = ok (sort_newest cmds)
  sorted (raised e) = raised e

  unfoldable pub clear_one : String → String → Exec ℕ
  clear_one tenant_id spoke_id = do
    cmds ← reading (load_queue tenant_id spoke_id)
    write (save_queue tenant_id spoke_id [])
    return (length cmds)

  -- The loop that clears the queues of a tenant, and adds up what they held.
  unfoldable pub clear_all : String → List Spoke → Exec ℕ
  clear_all tenant_id [] = return 0
  clear_all tenant_id (s ∷ spokes) = do
    n ← clear_one tenant_id s.id
    total ← clear_all tenant_id spokes
    return (n + total)

  module _ ⦃format : SpokeFormat⦄ ⦃times : Instants⦄ where
    -- `spoke_id` is empty where the caller gives none.
    unfoldable pub list_commands : ℕ → String → String → Disk → Result (List Command)
    list_commands now tenant_id spoke_id d =
        if spoke_id == ""
        then sorted (gather now tenant_id (load_spokes tenant_id d) d)
        else sorted (active_of now (load_queue tenant_id spoke_id d))

    unfoldable pub clear_command_queue : String → String → Exec ℕ
    clear_command_queue tenant_id spoke_id d =
        if spoke_id == ""
        then clear_all tenant_id (load_spokes tenant_id d) d
        else clear_one tenant_id spoke_id d
