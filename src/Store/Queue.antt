-- ===== src/Store/Queue.antt =====
-- The command queue of a spoke (app/store.py, lines 1434 to 1579). The push that `enqueue_command`
-- schedules on the event loop is a step of its own (app/ws.py, `push_spoke_commands`).
pub mod Delivery
pub mod Upkeep
pub mod Mailbox
pub mod Life
pub mod Expiry
use webui_hub.Prelude.{
  elem, ℕ, String, ◌≡◌, ap, refl, Bool, Option, none, some, List, [], ◌∷◌, ◌++◌, map, ◌==◌, ◌&&◌,
  ◌||◌, true, false, length, keep, find, update_first, arith, ltb, leb, eqb, if◌then◌else◌,
}
use webui_hub.Json.{Json, Dict}
use webui_hub.Disk.{
  Disk, rows, queue_path, read_rows, write_json, path_eq, read_rows-write_rows, FilePath,
  path_eq_refl, open_file, open_file-write_ne, read_rows-same,
}
use webui_hub.Exec.{Exec, Result, ok, return, reading, write, ◌>>=◌, ◌>>◌}
use webui_hub.Codec.{Codec, validate_all, dump_all, validate_all-dump_all}
use webui_hub.Models.{Command}

abbrev pub is_live : ℕ → Command → Bool
is_live now c = ltb now c.expires_at

-- `[c for c in cmds if c.expires_at > now]`
abbrev pub active : ℕ → List Command → List Command
active now cmds = keep (is_live now) cmds

abbrev pub is_queued : Command → Bool
is_queued c = c.status == "queued"

abbrev pub delivered : ℕ → Command → Command
delivered now c = record c { status = "delivered"; delivered_at = some now }

abbrev pub deliver_if : ℕ → (Command → Bool) → Command → Command
deliver_if now test c = if test c then delivered now c else c

abbrev pub is_among : List String → Command → Bool
is_among ids c = elem c.id ids && is_queued c

-- `if result:`: neither `None` nor `{}`
abbrev pub truthy_dict : Option (Dict Json) → Bool
truthy_dict (some (_ ∷ _)) = true
truthy_dict _ = false

abbrev pub executed : ℕ → Option (Dict Json) → Command → Command
executed now result c = record c {
  status = "executed";
  executed_at = some now;
  result = if truthy_dict result then result else c.result;
}

-- `sorted(commands, key=lambda c: c.created_at, reverse=True)`, which is stable.
unfoldable pub insert_newest : Command → List Command → List Command
insert_newest c [] = c ∷ []
insert_newest c (x ∷ xs) =
    let rest = insert_newest c xs in if leb x.created_at c.created_at then c ∷ x ∷ xs else x ∷ rest

unfoldable pub sort_newest : List Command → List Command
unfolding insert_newest
sort_newest [] = []
sort_newest (c ∷ cs) = insert_newest c (sort_newest cs)

module _ ⦃commands : Codec Command⦄ where
  unfoldable pub load_queue : String → String → Disk → Result (List Command)
  load_queue tenant_id spoke_id d = validate_all (read_rows (queue_path tenant_id spoke_id) d)

  unfoldable pub save_queue : String → String → List Command → Disk → Disk
  save_queue tenant_id spoke_id cmds =
      write_json (queue_path tenant_id spoke_id) (rows (dump_all cmds))

  unfoldable pub get_command : String → String → String → Exec (Option Command)
  get_command tenant_id spoke_id command_id = do
    cmds ← reading (load_queue tenant_id spoke_id)
    return (find (λ c. c.id == command_id) cmds)

  unfoldable pub enqueue_command : ℕ → Command → Exec (Unit {0})
  enqueue_command now command = do
    cmds ← reading (load_queue command.tenant_id command.spoke_id)
    write (save_queue command.tenant_id command.spoke_id (active now cmds ++ command ∷ []))

  unfoldable pub peek_queued_commands : ℕ → String → String → Exec (List Command)
  peek_queued_commands now tenant_id spoke_id = do
    cmds ← reading (load_queue tenant_id spoke_id)
    (if eqb (length (active now cmds)) (length cmds)
        then return tt
        else write (save_queue tenant_id spoke_id (active now cmds)))
    return (keep is_queued (active now cmds))

  unfoldable pub mark_commands_delivered : ℕ → String → String → List String → Exec (Unit {0})
  mark_commands_delivered now tenant_id spoke_id [] = return tt
  mark_commands_delivered now tenant_id spoke_id (id ∷ ids) = do
    cmds ← reading (load_queue tenant_id spoke_id)
    write (
        save_queue tenant_id spoke_id
          (map (deliver_if now (is_among (id ∷ ids))) (active now cmds)))

  -- The returned commands are the objects that were changed.
  unfoldable pub get_queued_commands : ℕ → String → String → Exec (List Command)
  get_queued_commands now tenant_id spoke_id = do
    cmds ← reading (load_queue tenant_id spoke_id)
    write (save_queue tenant_id spoke_id (map (deliver_if now is_queued) (active now cmds)))
    return (map (delivered now) (keep is_queued (active now cmds)))

  unfoldable pub ack_command : ℕ → String → String → String → Option (Dict Json) → Exec (Unit {0})
  ack_command now tenant_id spoke_id command_id result = do
    cmds ← reading (load_queue tenant_id spoke_id)
    write (
        save_queue tenant_id spoke_id
          (update_first (λ c. c.id == command_id) (executed now result) cmds))

  pub load_queue-save_queue :
      (t s u v : String) (cmds : List Command) (d : Disk)
      → load_queue u v (save_queue t s cmds d)
        ≡ (if path_eq (queue_path t s) (queue_path u v) then ok cmds else load_queue u v d)
  unfolding load_queue save_queue
  load_queue-save_queue t s u v cmds d =
      rw read_rows-write_rows (ground (arith, validate_all-dump_all cmds))

  pub load_queue-save_queue_self :
      (t s : String) (cmds : List Command) (d : Disk)
      → load_queue t s (save_queue t s cmds d) ≡ ok cmds
  load_queue-save_queue_self t s cmds d = rw (load_queue-save_queue, path_eq_refl)

  pub open_file-save_queue :
      (t s : String) (cmds : List Command) (d : Disk) (q : FilePath)
      → path_eq (queue_path t s) q ≡ false
      → open_file q (save_queue t s cmds d) ≡ open_file q d
  unfolding save_queue
  open_file-save_queue t s cmds d q other = open_file-write_ne _ q _ d other

  pub load_queue-same :
      (t s : String) (d e : Disk)
      → open_file (queue_path t s) d ≡ open_file (queue_path t s) e
      → load_queue t s d ≡ load_queue t s e
  unfolding load_queue
  load_queue-same t s d e h = ap validate_all (read_rows-same (queue_path t s) d e h)
