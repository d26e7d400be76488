-- ===== src/Store/Queue/Mailbox/Refines.antt =====
-- The queue file refines the mailbox.
use webui_hub.Prelude.{
  ℕ, String, ◌≡◌, refl, ap, ◌∙◌, not, List, [], ◌∷◌, ◌++◌, map, keep, elem, arith, keep-append,
  Bool-cases, inl, inr, length, eqb,
}
use webui_hub.Disk.{Disk}
use webui_hub.Exec.{ok}
use webui_hub.Codec.{Codec}
use webui_hub.Models.{Command}
use webui_hub.Store.Queue.{
  load_queue, enqueue_command, peek_queued_commands, mark_commands_delivered, get_queued_commands,
  active, delivered, deliver_if, is_queued, is_among, load_queue-save_queue_self,
}
use webui_hub.Store.Queue.Delivery.{
  queue-get_queued_commands, queue-peek, keep-is_queued-map_deliver,
}
use webui_hub.Store.Queue.Mailbox.{
  Access, posts, takes, looks, drops, addressed, perform, run, answer, answers,
}

-- The commands of the file that wait.
abbrev pub waiting : List Command → List Command
waiting cmds = keep is_queued cmds

pub waiting-active :
    (now : ℕ) (cmds : List Command) → waiting (active now cmds) ≡ active now (waiting cmds)
waiting-active now [] = refl
waiting-active now (c ∷ cs) = ground (arith, waiting-active now cs)

waiting-deliver_among :
    (now : ℕ) (ids : List String) (cmds : List Command)
    → waiting (map (deliver_if now (is_among ids)) cmds)
      ≡ keep (λ c. not (elem c.id ids)) (waiting cmds)
waiting-deliver_among now ids [] = refl
waiting-deliver_among now ids (c ∷ cs) = elim (Bool-cases (elem c.id ids)) [
  | inl e ↦ elim (Bool-cases (is_queued c)) [
    | inl q ↦ rw (e, q) (rw e (waiting-deliver_among now ids cs))
    | inr q ↦ rw (e, q) (rw q (waiting-deliver_among now ids cs))
  ]
  | inr e ↦ elim (Bool-cases (is_queued c)) [
    | inl q ↦ rw (e, q) (rw e (ap (λ r. c ∷ r) (waiting-deliver_among now ids cs)))
    | inr q ↦ rw (e, q) (waiting-deliver_among now ids cs)
  ]
]

module _ ⦃commands : Codec Command⦄ where
  -- What a file that loads holds after an access, and what the access answered.
  record Steps (t s : String) (now : ℕ) (a : Access) (cmds : List Command) (d : Disk) : Type 0 where
    left : List Command
    answered : (perform t s now a d).0 ≡ ok (answer t s now a (waiting cmds)).0
    loads : load_queue t s (perform t s now a d).1 ≡ ok left
    waits : waiting left ≡ (answer t s now a (waiting cmds)).1

  pub peeked :
      (now : ℕ) (t s : String) (cmds : List Command) (d : Disk)
      → load_queue t s d ≡ ok cmds
      → (peek_queued_commands now t s d).0 ≡ ok (active now (waiting cmds))
  unfolding peek_queued_commands
  peeked now t s cmds d h = rw h (elim (Bool-cases (eqb (length (active now cmds)) (length cmds))) [
    | inl e ↦ rw e (ap ok (waiting-active now cmds))
    | inr e ↦ rw e (ap ok (waiting-active now cmds))
  ])

  perform-Steps :
      (t s : String) (now : ℕ) (a : Access) (cmds : List Command) (d : Disk)
      → load_queue t s d ≡ ok cmds
      → Steps t s now a cmds d
  unfolding perform
  perform-Steps t s now (posts c) cmds d h = record {
    left = active now cmds ++ addressed t s c ∷ [];
    answered = unfold enqueue_command in rw h;
    loads =
        unfold enqueue_command in
        rw h (load_queue-save_queue_self t s (active now cmds ++ addressed t s c ∷ []) d);
    waits =
        keep-append is_queued (active now cmds) (addressed t s c ∷ [])
        ∙ ap (λ r. r ++ addressed t s c ∷ []) (waiting-active now cmds);
  }
  perform-Steps t s now takes cmds d h = record {
    left = map (deliver_if now is_queued) (active now cmds);
    answered =
        unfold get_queued_commands in
        rw h (ap (λ r. ok (map (delivered now) r)) (waiting-active now cmds));
    loads = queue-get_queued_commands now t s d h;
    waits = keep-is_queued-map_deliver now (active now cmds);
  }
  perform-Steps t s now looks cmds d h = record {
    left = active now cmds;
    answered = peeked now t s cmds d h;
    loads = queue-peek now t s d h;
    waits = waiting-active now cmds;
  }
  perform-Steps t s now (drops []) cmds d h = record {
    left = cmds;
    answered = unfold mark_commands_delivered in refl;
    loads = unfold mark_commands_delivered in h;
    waits = refl;
  }
  perform-Steps t s now (drops (id ∷ ids)) cmds d h = record {
    left = map (deliver_if now (is_among (id ∷ ids))) (active now cmds);
    answered = unfold mark_commands_delivered in rw h;
    loads = unfold mark_commands_delivered in rw h (load_queue-save_queue_self t s _ d);
    waits =
        waiting-deliver_among now (id ∷ ids) (active now cmds)
        ∙ ap (keep (λ c. not (elem c.id (id ∷ ids)))) (waiting-active now cmds);
  }

  -- Over any sequence of accesses to a queue that loads, the file answers as the mailbox of its
  -- waiting commands does, and no access raises.
  pub run-answers :
      (t s : String) (accesses : List (ℕ × Access)) (cmds : List Command) (d : Disk)
      → load_queue t s d ≡ ok cmds
      → (run t s accesses d).0 ≡ ok (answers t s accesses (waiting cmds))
  unfolding run answers
  run-answers t s [] cmds d h = refl
  run-answers t s ((now, a) ∷ accesses) cmds d h =
      let step = perform-Steps t s now a cmds d h in
      rw step.answered
        (rw (run-answers t s accesses step.left (perform t s now a d).1 step.loads) (rw step.waits))
