-- ===== src/SpokeRoutes/Updates/Ends.antt =====
-- The task that follows an update of all spokes ends (app/routers/spokes.py, `_poll_update_job`).
use webui_hub.Prelude.{
  ℕ, zero, suc, String, ◌≡◌, ◌≤◌, ◌<◌, refl, Bool, true, false, Option, some, ◌+◌, ◌*◌, ltb, arith,
  Bool-cases, inl, inr,
}
use webui_hub.Disk.{Disk}
use webui_hub.Exec.{Result, ok, raised}
use webui_hub.Codec.{Codec}
use webui_hub.Models.{Command}
use webui_hub.Store.Spokes.Format.{SpokeFormat, Instants}
use webui_hub.SpokeRoutes.Updates.{
  UpdateJob, World, Outcome, after_round, poll_from, poll_update_job, second, complete, time_out,
}

-- The task has ended, and if nothing was raised, the job is completed.
abbrev pub Ended : Result UpdateJob → Type 0
Ended (ok job) = job.completed ≡ true
Ended (raised e) = Unit

pub record Ends (o : Option (Result UpdateJob × Disk)) : Type 0 where
  pub result : Result UpdateJob
  pub disk : Disk
  pub returned : o ≡ some (result, disk)
  pub ended : Ended result

after_round-Ends :
    (go_on : UpdateJob → Disk → Outcome) (r : Result (UpdateJob × Bool) × Disk)
    → ((job : UpdateJob) (d : Disk) → Ends (go_on job d))
    → Ends (after_round go_on r)
after_round-Ends go_on (raised e, d) h = record {
  result = raised e;
  disk = d;
  returned = refl;
  ended = tt;
}
after_round-Ends go_on (ok (job, true), d) h = record {
  result = ok (complete job);
  disk = d;
  returned = refl;
  ended = refl;
}
after_round-Ends go_on (ok (job, false), d) h = h job d

module _ (w : World) (sleeps : (n : ℕ) → w.at n + 15 * second ≤ w.at (n + 1)) where
  elapsed : (n : ℕ) → w.at 0 + n * (15 * second) ≤ w.at n
  elapsed zero = omega arith
  elapsed (suc n) = ground (arith, elapsed n, sleeps n)

  -- Round 40 is not begun.
  in_time : (n : ℕ) → ltb (w.at n) (w.at 0 + 600 * second) ≡ true → n < 40
  in_time n h = ground (arith, elapsed n, h)

  module _ ⦃format : SpokeFormat⦄ ⦃times : Instants⦄ ⦃commands : Codec Command⦄
      (tenant_id : String) where
    poll_from-Ends :
        (fuel n : ℕ) (job : UpdateJob) (d : Disk)
        → n ≤ 40
        → 40 < fuel + n
        → Ends (poll_from w tenant_id (w.at 0 + 600 * second) fuel n job d)
    unfolding poll_from
    poll_from-Ends zero n job d le h = absurd (omega arith)
    poll_from-Ends (suc fuel) n job d le h =
        elim (Bool-cases (ltb (w.at n) (w.at 0 + 600 * second))) [
          | inl e ↦
              let early = in_time n e in
              rw e (
                after_round-Ends _ _
                  (λ j f. poll_from-Ends fuel (n + 1) j f (omega arith) (omega arith)))
          | inr e ↦
              rw e (record { result = ok (time_out job); disk = d; returned = refl; ended = refl })
        ]

    -- Where each sleep takes 15 seconds at least, the task ends, whatever the spokes report and other
    -- tasks write: 41 looks at the clock are enough, and if no round raises, the job is completed.
    pub poll_update_job-Ends :
        (job : UpdateJob) (d : Disk) → Ends (poll_update_job w tenant_id 41 job d)
    unfolding poll_update_job
    poll_update_job-Ends job d = poll_from-Ends 41 0 job d (omega arith) (omega arith)
