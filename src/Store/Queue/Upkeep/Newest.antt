-- ===== src/Store/Queue/Upkeep/Newest.antt =====
-- The order of listed commands, and what a cleared queue holds.
use webui_hub.Prelude.{
  ℕ, String, ◌≡◌, ◌≤◌, refl, ap, ◌∙◌, Bool, true, false, List, [], ◌∷◌, ◌+◌, length, keep,
  if◌then◌else◌, leb, ◌==◌, arith, Bool-cases, inl, inr, eq_refl, any,
}
use webui_hub.Disk.{Disk, path_eq}
use webui_hub.Exec.{ok}
use webui_hub.Codec.{Codec}
use webui_hub.Models.{Command, Spoke}
use webui_hub.Store.Spokes.{load_spokes}
use webui_hub.Store.Spokes.Format.{SpokeFormat, Instants}
use webui_hub.Store.Queue.{
  load_queue, save_queue, active, sort_newest, insert_newest, load_queue-save_queue,
}
use webui_hub.Store.Queue.Upkeep.{list_commands, clear_command_queue, clear_all, clear_one}

-- No command is followed by one that was created later.
abbrev is_not_before : ℕ → List Command → Bool
is_not_before at [] = true
is_not_before at (x ∷ xs) = leb x.created_at at

pub is_newest_first : List Command → Bool
is_newest_first [] = true
is_newest_first (x ∷ xs) =
    let rest = is_newest_first xs in if is_not_before x.created_at xs then rest else false

not_before-insert :
    (at : ℕ) (c : Command) (xs : List Command)
    → c.created_at ≤ at
    → is_not_before at xs ≡ true
    → is_not_before at (insert_newest c xs) ≡ true
unfolding insert_newest
not_before-insert at c [] h p = ground arith
not_before-insert at c (x ∷ xs) h p = ground (arith, p)

newest_first-insert :
    (c : Command) (xs : List Command)
    → is_newest_first xs ≡ true
    → is_newest_first (insert_newest c xs) ≡ true
unfolding is_newest_first insert_newest
newest_first-insert c [] h = refl
newest_first-insert c (x ∷ xs) h = elim (Bool-cases (leb x.created_at c.created_at)) [
  | inl e ↦ ground (arith, e, h)
  | inr e ↦ rw e (
      rw (not_before-insert x.created_at c xs (ground (arith, e)) (ground (arith, h)))
        (newest_first-insert c xs (ground (arith, h))))
]

length-keep-insert_newest :
    (test : Command → Bool) (c : Command) (xs : List Command)
    → length (keep test (insert_newest c xs)) ≡ length (keep test (c ∷ xs))
unfolding insert_newest
length-keep-insert_newest test c [] = refl
length-keep-insert_newest test c (x ∷ xs) = ground (arith, length-keep-insert_newest test c xs)

length-keep-sort_newest :
    (test : Command → Bool) (xs : List Command)
    → length (keep test (sort_newest xs)) ≡ length (keep test xs)
unfolding sort_newest
length-keep-sort_newest test [] = refl
length-keep-sort_newest test (x ∷ xs) =
    length-keep-insert_newest test x (sort_newest xs)
    ∙ ground (arith, length-keep-sort_newest test xs)

newest_first-sort : (xs : List Command) → is_newest_first (sort_newest xs) ≡ true
unfolding sort_newest is_newest_first
newest_first-sort [] = refl
newest_first-sort (x ∷ xs) = newest_first-insert x (sort_newest xs) (newest_first-sort xs)

module _ ⦃commands : Codec Command⦄ ⦃format : SpokeFormat⦄ ⦃times : Instants⦄ where
  -- The commands of a spoke, given by an id that is not empty, whose queue loads are listed from
  -- the newest on, and they are the commands of its queue that have not expired: every test holds
  -- of as many of the ones as of the others.
  pub list_commands_lem :
      (now : ℕ) (t s : String) (cmds : List Command) (d : Disk)
      → (s == "") ≡ false
      → load_queue t s d ≡ ok cmds
      → (list_commands now t s d ≡ ok (sort_newest (active now cmds)))
        × (is_newest_first (sort_newest (active now cmds)) ≡ true)
        × ((test : Command → Bool)
            → length (keep test (sort_newest (active now cmds)))
              ≡ length (keep test (active now cmds)))
  unfolding list_commands
  list_commands_lem now t s cmds d filled h = (
    rw (filled, h),
    newest_first-sort (active now cmds),
    λ test. length-keep-sort_newest test (active now cmds),
  )

  -- Every queue of the tenant loads.
  abbrev pub IsReadable : String → Disk → Type 0
  IsReadable t d = (v : String) → (cmds : List Command) × (load_queue t v d ≡ ok cmds)

  load_queue-save_in_tenant :
      (t s v : String) (cmds : List Command) (d : Disk)
      → load_queue t v (save_queue t s cmds d) ≡ (if s == v then ok cmds else load_queue t v d)
  load_queue-save_in_tenant t s v cmds d =
      rw load_queue-save_queue (unfold path_eq in rw eq_refl (ground arith))

  IsReadable-save_queue :
      (t s : String) (d : Disk) → IsReadable t d → IsReadable t (save_queue t s [] d)
  IsReadable-save_queue t s d h v = elim (Bool-cases (s == v)) [
    | inl e ↦ ([], rw (load_queue-save_in_tenant, e))
    | inr e ↦ ((h v).0, rw (load_queue-save_in_tenant, e) (h v).1)
  ]

  emptied : String → List Spoke → Disk → Disk
  emptied t [] d = d
  emptied t (s ∷ ss) d = emptied t ss (save_queue t s.id [] d)

  clear_all-emptied :
      (t : String) (ss : List Spoke) (d : Disk)
      → IsReadable t d
      → (n : ℕ) × (clear_all t ss d ≡ (ok n, emptied t ss d))
  unfolding clear_all clear_one emptied
  clear_all-emptied t [] d h = (0, refl)
  clear_all-emptied t (s ∷ ss) d h =
      let later =
        clear_all-emptied t ss (save_queue t s.id [] d) (IsReadable-save_queue t s.id d h) in
      (length (h s.id).0 + later.0, rw (h s.id).1 (rw later.1))

  queue-emptied :
      (t v : String) (ss : List Spoke) (d : Disk)
      → load_queue t v (emptied t ss d)
        ≡ (if any (λ s. s.id == v) ss then ok [] else load_queue t v d)
  unfolding emptied
  queue-emptied t v [] d = refl
  queue-emptied t v (s ∷ ss) d =
      queue-emptied t v ss (save_queue t s.id [] d)
      ∙ rw (load_queue-save_in_tenant t s.id v [] d) (ground arith)

  -- Clearing the queues of a tenant whose queues all load answers with a count, empties the queue
  -- of each of its spokes and leaves the queues of other ids.
  pub clear_command_queue_lem :
      (t v : String) (d : Disk)
      → IsReadable t d
      → ((n : ℕ) × ((clear_command_queue t "" d).0 ≡ ok n))
        × (load_queue t v (clear_command_queue t "" d).1
            ≡ (if any (λ s. s.id == v) (load_spokes t d) then ok [] else load_queue t v d))
  unfolding clear_command_queue
  clear_command_queue_lem t v d h =
      let run = clear_all-emptied t (load_spokes t d) d h in
      (
        (run.0, ap (λ r. r.0) run.1),
        ap (λ r. load_queue t v r.1) run.1 ∙ queue-emptied t v (load_spokes t d) d,
      )
