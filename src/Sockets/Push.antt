-- ===== src/Sockets/Push.antt =====
-- A push over a spoke's socket loses no command.
use webui_hub.Prelude.{
  ℕ, String, ◌≡◌, refl, ap, sym, subst, ◌∙◌, Bool, true, false, some, List, [], ◌∷◌, map, keep,
  if◌then◌else◌, Bool-cases, inl, inr,
}
use webui_hub.Disk.{Disk}
use webui_hub.Exec.{Result, ok, raised}
use webui_hub.Codec.{Codec}
use webui_hub.Models.{Command}
use webui_hub.Store.Queue.{
  load_queue, active, is_queued, deliver_if, peek_queued_commands, mark_commands_delivered,
}
use webui_hub.Store.Queue.Delivery.{queue-peek, queue-mark_named, queued_named, queued_ids}
use webui_hub.Store.Queue.Mailbox.Refines.{peeked, waiting-active}
use webui_hub.Sockets.{
  Sockets, SpokeLine, Pushed, line_of, send_to_spoke, push_spoke_commands, send_commands,
}

abbrev pub sent_of : Result Pushed → List Command
sent_of (ok p) = p.sent
sent_of (raised e) = []

deliver_none :
    (now : ℕ) (xs : List Command) → keep is_queued xs ≡ [] → map (deliver_if now is_queued) xs ≡ xs
deliver_none now [] e = refl
deliver_none now (x ∷ xs) e = elim (Bool-cases (is_queued x)) [
  | inl q ↦ cc (rw q at e)
  | inr q ↦ rw q (ap (λ r. x ∷ r) (deliver_none now xs (rw q at e)))
]

if_same {ℓ} : {A : Type ℓ} (b : Bool) (x : A) → (if b then x else x) ≡ x
if_same true x = refl
if_same false x = refl

module _ ⦃commands : Codec Command⦄ where
  module _ (fails : ℕ → Bool) (now : ℕ) (t i : String) (s : Sockets) (l : SpokeLine)
      (cmds : List Command) (d : Disk) (line : line_of t i s ≡ some l)
      (peek : load_queue t i d ≡ ok (active now cmds)) where
    marks : (ids : List String) → (mark_commands_delivered now t i ids d).0 ≡ ok tt
    unfolding mark_commands_delivered
    marks [] = refl
    marks (id ∷ ids) = rw peek

    marked :
        (queued : List Command)
        → keep is_queued (active now cmds) ≡ queued
        → load_queue t i (mark_commands_delivered now t i (map (λ x. x.id) queued) d).1
          ≡ ok (map (deliver_if now is_queued) (active now cmds))
    marked queued e =
        subst
          (λ r.
            load_queue t i (mark_commands_delivered now t i (map (λ x. x.id) r) d).1
            ≡ ok (map (deliver_if now is_queued) (active now cmds)))
          e
          (queue-mark_named now t i cmds d (queued_ids (active now cmds)) peek
            (queued_named (queued_ids (active now cmds)) (active now cmds) (λ y m. m)))

    sends :
        (queued : List Command)
        → keep is_queued (active now cmds) ≡ queued
        → (sent_of (send_commands fails now t i s queued d).0
            ≡ (if fails l.socket then [] else queued))
          × (load_queue t i (send_commands fails now t i s queued d).1
              ≡ ok (
                  if fails l.socket
                  then active now cmds
                  else map (deliver_if now is_queued) (active now cmds)))
    sends [] e = (
      sym (if_same (fails l.socket) []),
      rw (deliver_none now (active now cmds) e) (rw (if_same (fails l.socket)) peek),
    )
    sends (c ∷ cs) e = elim (Bool-cases (fails l.socket)) [
      | inl f ↦ unfold send_to_spoke in rw line (rw f (refl, peek))
      | inr f ↦
          unfold send_to_spoke in
          rw line (rw f (rw (marks (c.id ∷ map (λ x. x.id) cs)) (refl, marked (c ∷ cs) e)))
    ]

  -- A push over a socket that is connected, to a spoke whose queue loads. Where the send raises,
  -- nothing counts as sent, and the queue keeps every command that has not expired as it was; else
  -- the queued commands are sent and the queue has them marked as delivered. No command is lost.
  pub push_spoke_commands_lem :
      (fails : ℕ → Bool) (now : ℕ) (t i : String) (s : Sockets) (l : SpokeLine)
      (cmds : List Command) (d : Disk)
      → line_of t i s ≡ some l
      → load_queue t i d ≡ ok cmds
      → (sent_of (push_spoke_commands fails now t i s d).0
          ≡ (if fails l.socket then [] else keep is_queued (active now cmds)))
        × (load_queue t i (push_spoke_commands fails now t i s d).1
            ≡ ok (
                if fails l.socket
                then active now cmds
                else map (deliver_if now is_queued) (active now cmds)))
  unfolding push_spoke_commands
  push_spoke_commands_lem fails now t i s l cmds d line h = rw line (
      rw (peeked now t i cmds d h ∙ ap ok (sym (waiting-active now cmds))) (
        sends fails now t i s l cmds (peek_queued_commands now t i d).1 line
          (queue-peek now t i d h) (keep is_queued (active now cmds)) refl))
