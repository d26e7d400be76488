-- ===== src/Store/Queue/Mailbox.antt =====
-- A command queue as its users see it: a mailbox of waiting commands, and the accesses to it that
-- the store performs (app/store.py, `enqueue_command` to `get_queued_commands`).
pub mod Refines
use webui_hub.Prelude.{ℕ, String, Bool, not, List, [], ◌∷◌, ◌++◌, map, keep, elem}
use webui_hub.Exec.{Exec, return, ◌>>=◌, ◌>>◌}
use webui_hub.Codec.{Codec}
use webui_hub.Models.{Command}
use webui_hub.Store.Queue.{
  enqueue_command, peek_queued_commands, mark_commands_delivered, get_queued_commands, active,
  delivered, is_queued,
}

pub data Access : Type 0 where
  posts : Command → Access
  takes : Access
  looks : Access
  drops : List String → Access

-- A command as the hub makes it for a spoke: it is queued.
abbrev pub addressed : String → String → Command → Command
addressed tenant_id spoke_id c = record c {
  tenant_id = tenant_id;
  spoke_id = spoke_id;
  status = "queued";
}

module _ ⦃commands : Codec Command⦄ where
  -- An access to the queue file, with the commands that it returns.
  unfoldable pub perform : String → String → ℕ → Access → Exec (List Command)
  perform t s now (posts c) = do enqueue_command now (addressed t s c); return []
  perform t s now takes = get_queued_commands now t s
  perform t s now looks = peek_queued_commands now t s
  perform t s now (drops ids) = do mark_commands_delivered now t s ids; return []

  unfoldable pub run : String → String → List (ℕ × Access) → Exec (List (List Command))
  run t s [] = return []
  run t s ((now, a) ∷ accesses) = do
    out ← perform t s now a
    outs ← run t s accesses
    return (out ∷ outs)

-- The specification: a mailbox holds the waiting commands and nothing else.
abbrev pub Mailbox : Type 0
Mailbox = List Command

abbrev pub answer : String → String → ℕ → Access → Mailbox → List Command × Mailbox
answer t s now (posts c) waiting = ([], active now waiting ++ addressed t s c ∷ [])
answer t s now takes waiting = (map (delivered now) (active now waiting), [])
answer t s now looks waiting = (active now waiting, active now waiting)
answer t s now (drops []) waiting = ([], waiting)
answer t s now (drops (id ∷ ids)) waiting =
    ([], keep (λ c. not (elem c.id (id ∷ ids))) (active now waiting))

unfoldable pub answers : String → String → List (ℕ × Access) → Mailbox → List (List Command)
answers t s [] waiting = []
answers t s ((now, a) ∷ accesses) waiting =
    let step = answer t s now a waiting in step.0 ∷ answers t s accesses step.1
