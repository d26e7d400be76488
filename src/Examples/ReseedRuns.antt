-- ===== src/Examples/ReseedRuns.antt =====
-- Runs of a reseed job.
use webui_hub.Prelude.{◌≡◌, refl, ◌+◌, ◌≤◌, true, none, some, [], ◌∷◌}
use webui_hub.Reseed.{Reseed, Progress, update_reseed_progress, retry_reseed}
use webui_hub.Reseed.Retries.{IsCounted, tally, here, next, reports, fires, Reach-Bounded}
use webui_hub.Json.{get}

abbrev started : Reseed
started = record {
  job = record {
    status = "running";
    spoke_status =
        (
          "s1",
          record { status = "running"; step = some "command_sent"; error = none; retry_count = 0 },
        )
        ∷ [];
  };
  timers = [];
  dispatched = [];
}

abbrev failed : Progress
failed = record { status = "error"; step = none; error = some "no space" }

abbrev after_error : Reseed
after_error = update_reseed_progress "s1" failed started

one_timer : after_error.timers ≡ ("s1", 1) ∷ []
unfolding update_reseed_progress get
one_timer = refl

started-IsCounted : IsCounted "s1" 0 started
unfolding get
started-IsCounted = (
  record { status = "running"; step = some "command_sent"; error = none; retry_count = 0 },
  refl,
  refl,
)

abbrev after_two : Reseed
after_two =
    update_reseed_progress "s1" failed
      (retry_reseed "s1" 1 true (record after_error { timers = [] }))

Reach-Bounded_example :
    IsCounted "s1" 2 after_two
    × (tally "s1" after_two.timers + tally "s1" after_two.dispatched ≤ 2)
    × (tally "s1" after_two.timers + tally "s1" after_two.dispatched ≤ 3)
Reach-Bounded_example = Reach-Bounded "s1" refl refl started-IsCounted (
    next
      (next (next here (reports started "s1" failed))
        (fires after_error "s1" 1 true [] [] one_timer))
      (reports _ "s1" failed))
