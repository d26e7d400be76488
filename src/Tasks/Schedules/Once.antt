-- ===== src/Tasks/Schedules/Once.antt =====
-- A schedule is carried out once (`schedule_check` of app/tasks.py).
use webui_hub.Prelude.{
  String, ◌≡◌, refl, ap, sym, ◌∙◌, Bool, true, Option, none, some, List, [], ◌∷◌, ◌==◌, eq_refl,
  Bool-cases, inl, inr, ◌⊎◌, All, subst,
}
use webui_hub.Json.{Dict, get, put, get-put}
use webui_hub.Disk.{Disk}
use webui_hub.Exec.{Result, ok, raised}
use webui_hub.Codec.{Codec}
use webui_hub.Crypto.{JsonText}
use webui_hub.Models.{Spoke, Command, AuditEntry}
use webui_hub.Tasks.{Draw}
use webui_hub.Tasks.Schedules.{
  Clock, Pass, go_on, same_minute, due_schedule, schedule_as, schedule_spokes,
}

abbrev is_done : String → Clock → Dict String → Bool
is_done i now triggers = same_minute (get i triggers) now.key

-- What decides on the schedule of a spoke.
pub record SameSchedule (x s : Spoke) : Type 0 where
  pub id : x.id ≡ s.id
  pub status : x.status ≡ s.status
  pub config : x.config ≡ s.config

-- Is the spoke one of these, but for what does not decide on its schedule?
abbrev pub IsListed : Spoke → List Spoke → Type 0
IsListed s [] = ⊥
IsListed s (x ∷ xs) = SameSchedule x s ⊎ IsListed s xs

module _ ⦃json : JsonText⦄ ⦃commands : Codec Command⦄ ⦃entries : Codec AuditEntry⦄ (now : Clock)
    (tenant_id : String) where
  put-is_done :
      (i j : String) (triggers : Dict String)
      → is_done i now triggers ≡ true
      → is_done i now (put j now.key triggers) ≡ true
  put-is_done i j triggers h = elim (Bool-cases (j == i)) [
    | inl e ↦ rw get-put (rw e (eq_refl now.key))
    | inr e ↦ rw get-put (rw e h)
  ]

  as-is_done :
      (g : Draw) (s : Spoke) (o : Result (Option String)) (i : String) (triggers : Dict String)
      (d : Disk)
      → is_done i now triggers ≡ true
      → is_done i now (schedule_as g now tenant_id s o triggers d).1 ≡ true
  as-is_done g s (raised e) i triggers d h = h
  as-is_done g s (ok none) i triggers d h = h
  as-is_done g s (ok (some cron)) i triggers d h =
      elim (Bool-cases (same_minute (get s.id triggers) now.key)) [
        | inl e ↦ rw e h
        | inr e ↦ rw e (put-is_done i s.id triggers h)
      ]

  -- Whatever is done stays so to the end of the pass.
  go_on-is_done :
      (i : String) (p : Pass) (rest : Dict String → Disk → Pass)
      → is_done i now p.1 ≡ true
      → ((triggers : Dict String) (d : Disk)
          → is_done i now triggers ≡ true
          → is_done i now (rest triggers d).1 ≡ true)
      → is_done i now (go_on p rest).1 ≡ true
  go_on-is_done i (ok u, triggers, d) rest h k = k triggers d h
  go_on-is_done i (raised e, triggers, d) rest h k = h

  spokes-is_done :
      (g : Draw) (i : String) (spokes : List Spoke) (triggers : Dict String) (d : Disk)
      → is_done i now triggers ≡ true
      → is_done i now (schedule_spokes g now tenant_id spokes triggers d).1 ≡ true
  unfolding schedule_spokes
  spokes-is_done g i [] triggers d h = h
  spokes-is_done g i (s ∷ spokes) triggers d h =
      go_on-is_done i _ (schedule_spokes g now tenant_id spokes)
        (as-is_done g s (due_schedule now s) i triggers d h) (spokes-is_done g i spokes)

  -- A spoke that has no schedule due, or whose schedule was carried out in this minute.
  abbrev Settled : Result (Option String) → String → Dict String → Type 0
  Settled (raised e) i triggers = ⊥
  Settled (ok none) i triggers = Unit
  Settled (ok (some cron)) i triggers = is_done i now triggers ≡ true

  as-Settled :
      (g : Draw) (s : Spoke) (o : Result (Option String)) (triggers later : Dict String) (d : Disk)
      → (schedule_as g now tenant_id s o triggers d).0 ≡ ok tt
      → (is_done s.id now (schedule_as g now tenant_id s o triggers d).1 ≡ true
          → is_done s.id now later ≡ true)
      → Settled o s.id later
  as-Settled g s (raised e) triggers later d r k = cc
  as-Settled g s (ok none) triggers later d r k = tt
  as-Settled g s (ok (some cron)) triggers later d r k =
      k (elim (Bool-cases (same_minute (get s.id triggers) now.key)) [
        | inl e ↦ rw e e
        | inr e ↦ rw e (rw get-put (rw (eq_refl s.id) (eq_refl now.key)))
      ])

  as_again :
      (g : Draw) (s : Spoke) (o : Result (Option String)) (triggers : Dict String) (d : Disk)
      → Settled o s.id triggers
      → schedule_as g now tenant_id s o triggers d ≡ (ok tt, triggers, d)
  as_again g s (raised e) triggers d h = absurd h
  as_again g s (ok none) triggers d h = refl
  as_again g s (ok (some cron)) triggers d h = rw h refl

  go_on_split :
      (p : Pass) (rest : Dict String → Disk → Pass)
      → (go_on p rest).0 ≡ ok tt
      → (p.0 ≡ ok tt) × (go_on p rest ≡ rest p.1 p.2)
  go_on_split (ok tt, triggers, d) rest h = (refl, refl)
  go_on_split (raised e, triggers, d) rest h = cc

  abbrev AllSettled : Dict String → List Spoke → Type 0
  AllSettled triggers = All (λ s. Settled (due_schedule now s) s.id triggers)

  -- After a pass that no raise has ended, all its spokes are settled.
  spokes-Settled :
      (g : Draw) (spokes : List Spoke) (triggers : Dict String) (d : Disk)
      → (schedule_spokes g now tenant_id spokes triggers d).0 ≡ ok tt
      → AllSettled (schedule_spokes g now tenant_id spokes triggers d).1 spokes
  unfolding schedule_spokes
  spokes-Settled g [] triggers d r = tt
  spokes-Settled g (s ∷ spokes) triggers d r =
      let first = schedule_as g now tenant_id s (due_schedule now s) triggers d in
      let (went, eq) = go_on_split first (schedule_spokes g now tenant_id spokes) r in
      let rest = spokes-Settled g spokes first.1 first.2 (ap (λ (p : Pass). p.0) (sym eq) ∙ r) in
      let here =
        as-Settled g s (due_schedule now s) triggers
          (schedule_spokes g now tenant_id spokes first.1 first.2).1 d went
          (spokes-is_done g s.id spokes first.1 first.2) in
      subst (λ (p : Pass). AllSettled p.1 (s ∷ spokes)) (sym eq) (here, rest)

  settled_again :
      (g : Draw) (spokes : List Spoke) (triggers : Dict String) (d : Disk)
      → AllSettled triggers spokes
      → schedule_spokes g now tenant_id spokes triggers d ≡ (ok tt, triggers, d)
  unfolding schedule_spokes
  settled_again g [] triggers d h = refl
  settled_again g (s ∷ spokes) triggers d h =
      rw (as_again g s (due_schedule now s) triggers d h.0) (settled_again g spokes triggers d h.1)

  due_same :
      (x s : Spoke)
      → x.status ≡ s.status
      → x.config ≡ s.config
      → due_schedule now x ≡ due_schedule now s
  unfolding due_schedule
  due_same x s p q = rw (p, q) refl

  listed-Settled :
      (s : Spoke) (spokes : List Spoke) (triggers : Dict String)
      → IsListed s spokes
      → AllSettled triggers spokes
      → Settled (due_schedule now s) s.id triggers
  listed-Settled s [] triggers l h = absurd l
  listed-Settled s (x ∷ spokes) triggers (inl same) h =
      subst (λ i. Settled (due_schedule now s) i triggers) same.id
        (subst (λ o. Settled o x.id triggers) (due_same x s same.status same.config) h.0)
  listed-Settled s (x ∷ spokes) triggers (inr l) h = listed-Settled s spokes triggers l h.1

  AllSettled-listed :
      (others spokes : List Spoke) (triggers : Dict String)
      → All (λ s. IsListed s spokes) others
      → AllSettled triggers spokes
      → AllSettled triggers others
  AllSettled-listed [] spokes triggers l h = tt
  AllSettled-listed (s ∷ others) spokes triggers l h =
      (listed-Settled s spokes triggers l.0 h, AllSettled-listed others spokes triggers l.1 h)

  -- A pass over the spokes of a tenant that no raise has ended, and a later pass in the same minute
  -- over any of these spokes as they are loaded by then, with the id, the status and the settings
  -- that they had: the later pass triggers no schedule, whatever the files hold, and changes nothing.
  pub schedule_spokes_again :
      (g h : Draw) (spokes others : List Spoke) (triggers : Dict String) (d f : Disk)
      → (schedule_spokes g now tenant_id spokes triggers d).0 ≡ ok tt
      → All (λ s. IsListed s spokes) others
      → let later = (schedule_spokes g now tenant_id spokes triggers d).1 in
        schedule_spokes h now tenant_id others later f ≡ (ok tt, later, f)
  schedule_spokes_again g h spokes others triggers d f r listed =
      settled_again h others _ f
        (AllSettled-listed others spokes _ listed (spokes-Settled g spokes triggers d r))
