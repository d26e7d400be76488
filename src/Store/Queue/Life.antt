-- ===== src/Store/Queue/Life.antt =====
-- The life of a command: the states that the operations on the queues lead to.
use webui_hub.Prelude.{
  ℕ, String, ◌≡◌, refl, Bool, true, false, not, ◌&&◌, Option, none, some, List, [], ◌∷◌, ◌==◌, map,
  arith, All, All-append, if◌then◌else◌, Bool-cases, inl, inr, update_first, length, eqb,
}
use webui_hub.Json.{Json, Dict}
use webui_hub.Disk.{Disk, path_eq, queue_path}
use webui_hub.Exec.{ok}
use webui_hub.Codec.{Codec}
use webui_hub.Models.{Command}
use webui_hub.Store.Queue.{
  load_queue, save_queue, enqueue_command, peek_queued_commands, mark_commands_delivered,
  get_queued_commands, ack_command, active, delivered, deliver_if, executed, is_queued, is_among,
  is_live, load_queue-save_queue,
}

abbrev is_stamped : Option ℕ → Bool
is_stamped none = false
is_stamped (some t) = true

-- A queued command has no stamp, a delivered one has the stamp of its delivery alone, and an
-- executed one that of its execution. There is no other status.
abbrev pub is_timed : Command → Bool
is_timed c =
    if c.status == "queued"
    then not (is_stamped c.delivered_at) && not (is_stamped c.executed_at)
    else if c.status == "delivered"
    then is_stamped c.delivered_at && not (is_stamped c.executed_at)
    else (c.status == "executed") && is_stamped c.executed_at

abbrev AllTimed : List Command → Type 0
AllTimed = All (λ c. is_timed c ≡ true)

AllTimed-active : (now : ℕ) (cmds : List Command) → AllTimed cmds → AllTimed (active now cmds)
AllTimed-active now [] h = tt
AllTimed-active now (c ∷ cs) h = elim (Bool-cases (is_live now c)) [
  | inl e ↦ rw e (h.0, AllTimed-active now cs h.1)
  | inr e ↦ rw e (AllTimed-active now cs h.1)
]

is_timed-deliver :
    (now : ℕ) (c : Command)
    → is_timed c ≡ true
    → is_queued c ≡ true
    → is_timed (delivered now c) ≡ true
is_timed-deliver now c h q = ground arith

AllTimed-deliver :
    (now : ℕ) (test : Command → Bool) (cmds : List Command)
    → ((c : Command) → test c ≡ true → is_queued c ≡ true)
    → AllTimed cmds
    → AllTimed (map (deliver_if now test) cmds)
AllTimed-deliver now test [] q h = tt
AllTimed-deliver now test (c ∷ cs) q h = elim (Bool-cases (test c)) [
  | inl e ↦ rw e (is_timed-deliver now c h.0 (q c e), AllTimed-deliver now test cs q h.1)
  | inr e ↦ rw e (h.0, AllTimed-deliver now test cs q h.1)
]

is_timed-executed :
    (now : ℕ) (result : Option (Dict Json)) (c : Command) → is_timed (executed now result c) ≡ true
is_timed-executed now result c = refl

AllTimed-ack :
    (now : ℕ) (result : Option (Dict Json)) (id : String) (cmds : List Command)
    → AllTimed cmds
    → AllTimed (update_first (λ c. c.id == id) (executed now result) cmds)
AllTimed-ack now result id [] h = tt
AllTimed-ack now result id (c ∷ cs) h = elim (Bool-cases (c.id == id)) [
  | inl e ↦ rw e (is_timed-executed now result c, h.1)
  | inr e ↦ rw e (h.0, AllTimed-ack now result id cs h.1)
]

module _ ⦃commands : Codec Command⦄ where
  -- Every queue loads, and its commands are stamped as their status says.
  abbrev pub IsTimed : Disk → Type 0
  IsTimed d = (t s : String) → (cmds : List Command) × (load_queue t s d ≡ ok cmds) × AllTimed cmds

  -- The five operations on a spoke's queue, in any order and at any instants.
  pub data Step : Disk → Disk → Type 0 where
    enqueue :
        (d : Disk) (now : ℕ) (c : Command) → is_timed c ≡ true → Step d (enqueue_command now c d).1
    peek : (d : Disk) (now : ℕ) (t s : String) → Step d (peek_queued_commands now t s d).1
    mark :
        (d : Disk) (now : ℕ) (t s : String) (ids : List String)
        → Step d (mark_commands_delivered now t s ids d).1
    fetch : (d : Disk) (now : ℕ) (t s : String) → Step d (get_queued_commands now t s d).1
    ack :
        (d : Disk) (now : ℕ) (t s id : String) (result : Option (Dict Json))
        → Step d (ack_command now t s id result d).1

  pub data Reach (d : Disk) : Disk → Type 0 where
    here : Reach d d
    next : {e f : Disk} → Reach d e → Step e f → Reach d f

  IsTimed-save_queue :
      (t s : String) (cmds : List Command) (d : Disk)
      → IsTimed d
      → AllTimed cmds
      → IsTimed (save_queue t s cmds d)
  IsTimed-save_queue t s cmds d h timed u v =
      elim (Bool-cases (path_eq (queue_path t s) (queue_path u v))) [
        | inl e ↦ (cmds, rw (load_queue-save_queue, e), timed)
        | inr e ↦ ((h u v).0, rw (load_queue-save_queue, e) (h u v).1, (h u v).2)
      ]

  Step-IsTimed : {d e : Disk} → Step d e → IsTimed d → IsTimed e
  unfolding enqueue_command peek_queued_commands mark_commands_delivered get_queued_commands
      ack_command
  Step-IsTimed (enqueue d now c timed) h =
      let (cmds, loads, all) = h c.tenant_id c.spoke_id in
      rw loads (
        IsTimed-save_queue c.tenant_id c.spoke_id _ d h (
          All-append (λ x. is_timed x ≡ true) (active now cmds) (c ∷ [])
            (AllTimed-active now cmds all) (timed, tt)))
  Step-IsTimed (peek d now t s) h =
      let (cmds, loads, all) = h t s in
      rw loads (elim (Bool-cases (eqb (length (active now cmds)) (length cmds))) [
        | inl e ↦ rw e h
        | inr e ↦ rw e (IsTimed-save_queue t s _ d h (AllTimed-active now cmds all))
      ])
  Step-IsTimed (mark d now t s []) h = h
  Step-IsTimed (mark d now t s (id ∷ ids)) h =
      let (cmds, loads, all) = h t s in
      rw loads (
        IsTimed-save_queue t s _ d h (
          AllTimed-deliver now (is_among (id ∷ ids)) (active now cmds) (λ c e. ground (arith, e))
            (AllTimed-active now cmds all)))
  Step-IsTimed (fetch d now t s) h =
      let (cmds, loads, all) = h t s in
      rw loads (
        IsTimed-save_queue t s _ d h (
          AllTimed-deliver now is_queued (active now cmds) (λ c e. e)
            (AllTimed-active now cmds all)))
  Step-IsTimed (ack d now t s id result) h =
      let (cmds, loads, all) = h t s in
      rw loads (IsTimed-save_queue t s _ d h (AllTimed-ack now result id cmds all))

  -- From files whose queues load and are stamped as their statuses say, every sequence of steps (a
  -- command put in, a peek, a marking, a fetch or an acknowledgement, on any queues and at any instants) leads to such
  -- files. A command that is put in is stamped as its status says.
  pub Reach-IsTimed : {d e : Disk} → IsTimed d → Reach d e → IsTimed e
  Reach-IsTimed h here = h
  Reach-IsTimed h (next r st) = Step-IsTimed st (Reach-IsTimed h r)
