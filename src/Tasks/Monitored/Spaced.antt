-- ===== src/Tasks/Monitored/Spaced.antt =====
-- How often a user is told that an item is missing (`_check_monitored_items` of app/tasks.py).
use webui_hub.Prelude.{
  ℕ, String, ◌≡◌, ◌<◌, ◌≤◌, refl, subst, ◌∙◌, Bool, true, false, Option, none, some, List, [], ◌∷◌,
  ◌+◌, ◌*◌, if◌then◌else◌, Bool-cases, inl, inr, arith,
}
use webui_hub.Json.{Json, Dict, num, get-put_self, truthy, null}
use webui_hub.Store.Payload.{get_default}
use webui_hub.Crypto.{JsonText}
use webui_hub.Tasks.Monitored.{
  Central, minute, notify_after, number_at, since_first, missed_item, is_told, told_item,
  check_found, check_item, look_up, type_of, identifier_of,
}
use webui_hub.Tasks.Monitored.Absent.{
  number_at-put, last_told, found-last_told, missed-last_told, since-last_told, absent_since, Keeps,
  check_found-Keeps,
}

-- What a check that tells the user leaves, and what any other leaves.
record Tells (now : ℕ) (item after : Dict Json) : Type 0 where
  spaced : last_told item + notify_after < now
  overdue : number_at "missing_since" after + notify_after ≤ now
  marked : last_told after ≡ now

abbrev Told : ℕ → Dict Json → Dict Json × Bool → Type 0
Told now item (after, true) = Tells now item after
Told now item (after, false) = last_told after ≡ last_told item

told_item_lem :
    (now : ℕ) (item before : Dict Json)
    → last_told item ≡ last_told before
    → Told now before (told_item now item)
unfolding told_item
told_item_lem now item before h = elim (Bool-cases (is_told now item)) [
  | inl e ↦ rw e (record {
    spaced = ground (arith, h);
    overdue =
        rw (number_at-put "last_notified" "missing_since" (num now) item refl) (ground (arith, e));
    marked = unfold number_at in rw get-put_self refl;
  })
  | inr e ↦ rw e h
]

check_found-Told :
    (now : ℕ) (item : Dict Json) (o : Option (Bool × Option String))
    → Told now item (check_found now item o)
check_found-Told now item none = refl
check_found-Told now item (some (true, seen)) = found-last_told now seen item
check_found-Told now item (some (false, seen)) =
    told_item_lem now (missed_item now (since_first now item)) item
      (missed-last_told now (since_first now item) ∙ since-last_told now item)

-- Only an item that was not found is told of.
check_found-absent :
    (since : Option ℕ) (now : ℕ) (item : Dict Json) (o : Option (Bool × Option String))
    → (check_found now item o).1 ≡ true
    → (t : ℕ) × (absent_since since now o ≡ some t)
check_found-absent since now item none h = cc
check_found-absent since now item (some (true, seen)) h = cc
check_found-absent none now item (some (false, seen)) h = (now, refl)
check_found-absent (some t) now item (some (false, seen)) h = (t, refl)

module _ ⦃json : JsonText⦄ where
  abbrev pub looked_up : Central → Dict Json → Option (Bool × Option String)
  looked_up c item = look_up (type_of item) (identifier_of item) c

  -- The checks of an item, each at an instant and against what Central shows then: the instants at
  -- which the user is told, each with the one since which the checks have not found the item.
  unfoldable pub told_at : Option ℕ → Dict Json → List (ℕ × Central) → List (ℕ × Option ℕ)
  told_at since item [] = []
  told_at since item ((now, c) ∷ checks) =
      let r = check_item now c item in
      let absent = absent_since since now (looked_up c item) in
      let later = told_at absent r.0 checks in if r.1 then (now, absent) ∷ later else later

  abbrev pub IsPast : ℕ → Option ℕ → Type 0
  IsPast t none = ⊥
  IsPast t (some since) = since + 30 * minute ≤ t

  -- Each instant is more than half an hour behind the one before, and half an hour at least behind
  -- the one since which the item is absent.
  abbrev pub SpacedFrom : ℕ → List (ℕ × Option ℕ) → Type 0
  SpacedFrom last [] = Unit
  SpacedFrom last ((t, since) ∷ ts) = (last + 30 * minute < t) × IsPast t since × SpacedFrom t ts

  absent-IsPast :
      (now : ℕ) (o : Option ℕ) (after : Dict Json)
      → ((t : ℕ) × (o ≡ some t))
      → Keeps o after
      → number_at "missing_since" after + notify_after ≤ now
      → IsPast now o
  absent-IsPast now none after (t, e) k h = cc
  absent-IsPast now (some t) after e k h = ground (arith, k, h)

  step-SpacedFrom :
      (now : ℕ) (item : Dict Json) (checks : List (ℕ × Central)) (o : Option ℕ)
      (r : Dict Json × Bool)
      → Told now item r
      → (r.1 ≡ true → (t : ℕ) × (o ≡ some t))
      → Keeps o r.0
      → SpacedFrom (last_told r.0) (told_at o r.0 checks)
      → SpacedFrom
          (last_told item)
          (if r.1 then (now, o) ∷ told_at o r.0 checks else told_at o r.0 checks)
  step-SpacedFrom now item checks o (after, true) h absent keeps k = (
    h.spaced,
    absent-IsPast now o after (absent refl) keeps h.overdue,
    subst (λ l. SpacedFrom l (told_at o after checks)) h.marked k,
  )
  step-SpacedFrom now item checks o (after, false) h absent keeps k =
      subst (λ l. SpacedFrom l (told_at o after checks)) h k

  told_at-Spaced :
      (since : Option ℕ) (item : Dict Json) (checks : List (ℕ × Central))
      → Keeps since item
      → SpacedFrom (last_told item) (told_at since item checks)
  unfolding told_at
  told_at-Spaced since item [] keeps = tt
  told_at-Spaced since item ((now, c) ∷ checks) keeps =
      let absent = absent_since since now (looked_up c item) in
      let kept : Keeps absent (check_item now c item).0 =
        (unfold check_item in check_found-Keeps since now item (looked_up c item) keeps) in
      step-SpacedFrom now item checks absent (check_item now c item)
        (unfold check_item in check_found-Told now item (looked_up c item))
        (unfold check_item in check_found-absent since now item (looked_up c item)) kept
        (told_at-Spaced absent (check_item now c item).0 checks kept)

  -- Of an item whose `missing_since` is not set at first, whatever Central shows at its checks, and
  -- whenever these are made, its user is told that it is missing at instants that are more than 30
  -- minutes apart, and more than 30 minutes behind the time of the last notice before the checks;
  -- and only where a check 30 minutes before or earlier did not find it, and none since has found it.
  pub told_at-SpacedFrom :
      (item : Dict Json) (checks : List (ℕ × Central))
      → truthy (get_default "missing_since" item null) ≡ false
      → SpacedFrom (number_at "last_notified" item) (told_at none item checks)
  told_at-SpacedFrom item checks unset = told_at-Spaced none item checks unset
