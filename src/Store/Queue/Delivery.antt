-- ===== src/Store/Queue/Delivery.antt =====
-- What the operations on a command queue do to it, and that a command is delivered once.
use webui_hub.Prelude.{
  elem, ℕ, ◌<◌, String, ◌≡◌, refl, ap, sym, ◌∙◌, Bool, List, [], ◌∷◌, ◌++◌, map, true, length, keep,
  eqb, arith, eq_iff, eq_refl, keep-keep, keep-append, lt→ltb, All, keep_of_length, inl, inr,
  Bool-cases,
}
use mathlib.Core.List.{map-append}
use webui_hub.Disk.{Disk}
use webui_hub.Exec.{ok}
use webui_hub.Codec.{Codec}
use webui_hub.Models.{Command}
use webui_hub.Store.Queue.{
  load_queue, enqueue_command, peek_queued_commands, mark_commands_delivered, get_queued_commands,
  active, is_queued, is_live, deliver_if, delivered, is_among, load_queue-save_queue_self,
}

-- A live queue stays live when some of its commands are marked.
active-map_deliver :
    (now at : ℕ) (test : Command → Bool) (cmds : List Command)
    → active now (map (deliver_if at test) cmds) ≡ map (deliver_if at test) (active now cmds)
active-map_deliver now at test [] = refl
active-map_deliver now at test (c ∷ cs) = ground (arith, active-map_deliver now at test cs)

pub keep-is_queued-map_deliver :
    (at : ℕ) (cmds : List Command) → keep is_queued (map (deliver_if at is_queued) cmds) ≡ []
keep-is_queued-map_deliver at [] = refl
keep-is_queued-map_deliver at (c ∷ cs) = elim (Bool-cases (is_queued c)) [
  | inl e ↦ rw e (keep-is_queued-map_deliver at cs)
  | inr e ↦ rw (e, e) (keep-is_queued-map_deliver at cs)
]

abbrev pub queued_ids : List Command → List String
queued_ids xs = map (λ c. c.id) (keep is_queued xs)

elem-queued_ids_cons :
    (y : String) (x : Command) (xs : List Command)
    → elem y (queued_ids xs) ≡ true
    → elem y (queued_ids (x ∷ xs)) ≡ true
unfolding elem
elem-queued_ids_cons y x xs h = elim (Bool-cases (is_queued x)) [
  | inl e ↦ rw e (ground (arith, h))
  | inr e ↦ rw e h
]

elem-queued_ids_head :
    (x : Command) (xs : List Command) → is_queued x ≡ true → elem x.id (queued_ids (x ∷ xs)) ≡ true
unfolding elem
elem-queued_ids_head x xs e = rw e (rw eq_refl)

-- A list that holds the ids of the queued commands names every queued command.
pub queued_named :
    (named : List String) (xs : List Command)
    → ((y : String) → elem y (queued_ids xs) ≡ true → elem y named ≡ true)
    → All (λ c. is_queued c ≡ true → elem c.id named ≡ true) xs
queued_named named [] h = tt
queued_named named (x ∷ xs) h = (
  λ e. h x.id (elem-queued_ids_head x xs e),
  queued_named named xs (λ y m. h y (elem-queued_ids_cons y x xs m)),
)

map-deliver_among :
    (now : ℕ) (ids : List String) (xs : List Command)
    → All (λ c. is_queued c ≡ true → elem c.id ids ≡ true) xs
    → map (deliver_if now (is_among ids)) xs ≡ map (deliver_if now is_queued) xs
map-deliver_among now ids [] h = refl
map-deliver_among now ids (x ∷ xs) h = elim (Bool-cases (is_queued x)) [
  | inl e ↦ rw (e, h.0 e, map-deliver_among now ids xs h.1)
  | inr e ↦ ground (arith, e, map-deliver_among now ids xs h.1)
]

map-deliver_among_none : (now : ℕ) (xs : List Command) → map (deliver_if now (is_among [])) xs ≡ xs
unfolding elem
map-deliver_among_none now [] = refl
map-deliver_among_none now (x ∷ xs) = ap (λ r. x ∷ r) (map-deliver_among_none now xs)

module _ ⦃commands : Codec Command⦄ where
  pub queue-enqueue_command :
      (now : ℕ) (c : Command) {cmds : List Command} (d : Disk)
      → load_queue c.tenant_id c.spoke_id d ≡ ok cmds
      → load_queue c.tenant_id c.spoke_id (enqueue_command now c d).1
        ≡ ok (active now cmds ++ c ∷ [])
  unfolding enqueue_command
  queue-enqueue_command now c d h = rw h (load_queue-save_queue_self _ _ _ d)

  pub queue-get_queued_commands :
      (now : ℕ) (t s : String) {cmds : List Command} (d : Disk)
      → load_queue t s d ≡ ok cmds
      → load_queue t s (get_queued_commands now t s d).1
        ≡ ok (map (deliver_if now is_queued) (active now cmds))
  unfolding get_queued_commands
  queue-get_queued_commands now t s d h = rw h (load_queue-save_queue_self _ _ _ d)

  -- Of a queue that loads, a second fetch after a first one returns nothing, at any two instants.
  pub get_queued_commands_once :
      (now later : ℕ) (t s : String) (cmds : List Command) (d : Disk)
      → load_queue t s d ≡ ok cmds
      → (get_queued_commands later t s (get_queued_commands now t s d).1).0 ≡ ok []
  get_queued_commands_once now later t s cmds d h =
      unfold get_queued_commands in
      rw (queue-get_queued_commands now t s d h)
        (simp (active-map_deliver, keep-is_queued-map_deliver))

  -- A command with the status "queued" that is put into a queue that loads is returned by the next
  -- fetch before it expires, marked as delivered and behind the other queued commands that have not
  -- expired.
  pub get_queued-enqueue_command :
      (now later : ℕ) (c : Command) (cmds : List Command) (d : Disk)
      → load_queue c.tenant_id c.spoke_id d ≡ ok cmds
      → c.status ≡ "queued"
      → later < c.expires_at
      → (get_queued_commands later c.tenant_id c.spoke_id (enqueue_command now c d).1).0
        ≡ ok (
            map (delivered later) (keep is_queued (active later (active now cmds)))
            ++ delivered later c ∷ [])
  get_queued-enqueue_command now later c cmds d h q live =
      unfold get_queued_commands in
      rw (queue-enqueue_command now c d h)
        (simp (keep-append, lt→ltb _ _ live, (eq_iff c.status "queued").1 q, map-append))

  pub queue-peek :
      (now : ℕ) (t s : String) {cmds : List Command} (d : Disk)
      → load_queue t s d ≡ ok cmds
      → load_queue t s (peek_queued_commands now t s d).1 ≡ ok (active now cmds)
  unfolding peek_queued_commands
  queue-peek now t s {cmds} d h =
      rw h (elim (Bool-cases (eqb (length (active now cmds)) (length cmds))) [
        | inl e ↦ rw e (rw (keep_of_length (is_live now) cmds (ground (arith, e))) h)
        | inr e ↦ rw e (load_queue-save_queue_self t s _ d)
      ])

  -- Marking under the ids of the queued commands marks all that are queued.
  pub queue-mark_named :
      (now : ℕ) (t s : String) (cmds : List Command) (d : Disk) (ids : List String)
      → load_queue t s d ≡ ok (active now cmds)
      → All (λ c. is_queued c ≡ true → elem c.id ids ≡ true) (active now cmds)
      → load_queue t s (mark_commands_delivered now t s ids d).1
        ≡ ok (map (deliver_if now is_queued) (active now cmds))
  unfolding mark_commands_delivered
  queue-mark_named now t s cmds d [] h named =
      h
      ∙ ap ok
          (sym (map-deliver_among_none now (active now cmds)) ∙ map-deliver_among now [] _ named)
  queue-mark_named now t s cmds d (id ∷ ids) h named = rw h (
      rw load_queue-save_queue_self
        (ap ok (rw (keep-keep (is_live now) cmds) (map-deliver_among now (id ∷ ids) _ named))))
