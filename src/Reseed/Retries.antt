-- ===== src/Reseed/Retries.antt =====
-- How often a spoke of a reseed job is tried again (app/routers/backups.py).
use webui_hub.Prelude.{
  ℕ, String, ◌≡◌, ◌≤◌, refl, ap, sym, ◌∙◌, Bool, Option, none, some, List, [], ◌∷◌, ◌++◌, ◌==◌, ◌+◌,
  ◌&&◌, ◌||◌, if◌then◌else◌, arith, eq_iff, Bool-cases, inl, inr,
}
use mathlib.Core.Option.{some_inj}
use webui_hub.Json.{Dict, get, put, get-put}
use webui_hub.Reseed.{
  Reseed, SpokeState, Progress, update_reseed_progress, retry_reseed, report_of, retry_of, is_due,
  is_error, refresh_backup_job_status, reported_state, dispatched_state,
}

-- The entries of a spoke.
abbrev pub tally : String → List (String × ℕ) → ℕ
tally i [] = 0
tally i ((j, n) ∷ es) = if j == i then 1 + tally i es else tally i es

tally-remove :
    (i j : String) (n : ℕ) (xs ys : List (String × ℕ))
    → tally i (xs ++ (j, n) ∷ ys) ≡ (if j == i then 1 else 0) + tally i (xs ++ ys)
tally-remove i j n [] ys = ground arith
tally-remove i j n ((k, m) ∷ xs) ys = ground (arith, tally-remove i j n xs ys)

abbrev count_of : Option SpokeState → ℕ
count_of none = 0
count_of (some st) = st.retry_count

-- The errors that the spoke has reported.
abbrev pub failures : String → Reseed → ℕ
failures i s = count_of (get i s.job.spoke_status)

-- A report of a spoke, or the end of the delay of a retry.
pub data Step : Reseed → Reseed → Type 0 where
  reports : (s : Reseed) (i : String) (p : Progress) → Step s (update_reseed_progress i p s)
  fires :
      (s : Reseed) (i : String) (n : ℕ) (sent : Bool) (xs ys : List (String × ℕ))
      → s.timers ≡ xs ++ (i, n) ∷ ys
      → Step s (retry_reseed i n sent (record s { timers = xs ++ ys }))

pub data Reach (s : Reseed) : Reseed → Type 0 where
  here : Reach s s
  next : {t u : Reseed} → Reach s t → Step t u → Reach s u

-- The retries of a spoke, waiting or dispatched, are no more than its errors, and at most three.
record Bounded (i : String) (s : Reseed) : Type 0 where
  by_failures : tally i s.timers + tally i s.dispatched ≤ failures i s
  by_three : tally i s.timers + tally i s.dispatched ≤ 3

removed :
    (i j : String) (n : ℕ) (xs ys timers : List (String × ℕ))
    → timers ≡ xs ++ (j, n) ∷ ys
    → tally i timers ≡ (if j == i then 1 else 0) + tally i (xs ++ ys)
removed i j n xs ys timers t = ap (tally i) t ∙ tally-remove i j n xs ys

removed-Bounded :
    (i j : String) (n : ℕ) (xs ys : List (String × ℕ)) (s : Reseed)
    → s.timers ≡ xs ++ (j, n) ∷ ys
    → Bounded i s
    → Bounded i (record s { timers = xs ++ ys })
removed-Bounded i j n xs ys s t b =
    let r = removed i j n xs ys s.timers t in
    record {
      by_failures = ground (arith, r, b.by_failures);
      by_three = ground (arith, r, b.by_three);
    }

-- The errors of a spoke whose state is replaced by one with `n` errors.
count-put :
    (i j : String) (st : SpokeState) (m : Dict SpokeState)
    → count_of (get i (put j st m)) ≡ (if j == i then st.retry_count else count_of (get i m))
count-put i j st m = elim (Bool-cases (j == i)) [
  | inl q ↦ rw get-put (rw q refl)
  | inr q ↦ rw get-put (rw q refl)
]

count-at :
    (i j : String) (st : SpokeState) (m : Dict SpokeState)
    → get j m ≡ some st
    → (if j == i then st.retry_count else count_of (get i m)) ≡ count_of (get i m)
count-at i j st m e = elim (Bool-cases (j == i)) [
  | inl q ↦ rw q (sym (ap count_of (ap (λ x. get x m) (sym ((eq_iff j i).0 q)) ∙ e)))
  | inr q ↦ rw q refl
]

report-Bounded :
    (i j : String) (p : Progress) (s : Reseed) (o : Option SpokeState)
    → get j s.job.spoke_status ≡ o
    → Bounded i s
    → Bounded i (report_of j p s o)
unfolding refresh_backup_job_status
report-Bounded i j p s none e b = b
report-Bounded i j p s (some st) e b =
    let after = count-put i j (reported_state st p) s.job.spoke_status in
    let before = count-at i j st s.job.spoke_status e in
    record {
      by_failures = ground (arith, after, before, b.by_failures, b.by_three);
      by_three = ground (arith, before, b.by_failures, b.by_three);
    }

retry-Bounded :
    (i j : String) (n : ℕ) (sent : Bool) (xs ys : List (String × ℕ)) (s : Reseed)
    → s.timers ≡ xs ++ (j, n) ∷ ys
    → (d : Option ℕ) (o : Option SpokeState) → get j s.job.spoke_status ≡ o
    → Bounded i s
    → Bounded i (retry_of j n sent (record s { timers = xs ++ ys }) d o)
unfolding refresh_backup_job_status
retry-Bounded i j n sent xs ys s t none o e b = removed-Bounded i j n xs ys s t b
retry-Bounded i j n sent xs ys s t (some d) none e b = removed-Bounded i j n xs ys s t b
retry-Bounded i j n sent xs ys s t (some d) (some st) e b =
    let after = count-put i j (dispatched_state sent st) s.job.spoke_status in
    let before = count-at i j st s.job.spoke_status e in
    let r = removed i j n xs ys s.timers t in
    elim (Bool-cases (is_due n st)) [
      | inl due ↦ rw due (record {
        by_failures = ground (arith, after, before, r, b.by_failures);
        by_three = ground (arith, r, b.by_three);
      })
      | inr late ↦ rw late (removed-Bounded i j n xs ys s t b)
    ]

Step-Bounded : (i : String) {s t : Reseed} → Step s t → Bounded i s → Bounded i t
unfolding update_reseed_progress retry_reseed
Step-Bounded i (reports s j p) b = report-Bounded i j p s _ refl b
Step-Bounded i (fires s j n sent xs ys t) b = retry-Bounded i j n sent xs ys s t _ _ refl b

-- The errors that a spoke reports in a step, and on the way to a state.
abbrev errors_in : String → {s t : Reseed} → Step s t → ℕ
errors_in i (reports s j p) =
    if (j == i) && ((p.status == "error") || (p.status == "failed")) then 1 else 0
errors_in i (fires s j n sent xs ys t) = 0

abbrev pub errors_on : String → {s t : Reseed} → Reach s t → ℕ
errors_on i here = 0
errors_on i (next r step) = errors_on i r + errors_in i step

-- The spoke is one of the job, which has counted this many errors of it.
abbrev pub IsCounted : String → ℕ → Reseed → Type 0
IsCounted i n s = (st : SpokeState) × (get i s.job.spoke_status ≡ some st) × (st.retry_count ≡ n)

-- Another state of a spoke, with the count that it must have.
put-IsCounted :
    (i j : String) (st : SpokeState) (m n : ℕ) (s : Reseed) (after : SpokeState)
    → get j s.job.spoke_status ≡ some st
    → after.retry_count ≡ st.retry_count + m
    → IsCounted i n s
    → (x : SpokeState) × (get i (put j after s.job.spoke_status) ≡ some x)
      × (x.retry_count ≡ n + (if j == i then m else 0))
put-IsCounted i j st m n s after e count (x, at, counts) = elim (Bool-cases (j == i)) [
  | inl q ↦
      let same : x ≡ st =
        some_inj.0 (sym at ∙ ap (λ k. get k s.job.spoke_status) (sym ((eq_iff j i).0 q)) ∙ e) in
      (
        after,
        rw get-put (rw q refl),
        rw q (count ∙ ap (λ k. k + m) (ap (λ r. r.retry_count) (sym same) ∙ counts)),
      )
  | inr q ↦ (x, rw get-put (rw q at), rw q (ground (arith, counts)))
]

report-IsCounted :
    (i j : String) (p : Progress) (n : ℕ) (s : Reseed) (o : Option SpokeState)
    → get j s.job.spoke_status ≡ o
    → IsCounted i n s
    → IsCounted i
        (n + (if (j == i) && ((p.status == "error") || (p.status == "failed")) then 1 else 0))
        (report_of j p s o)
unfolding refresh_backup_job_status
report-IsCounted i j p n s none e (x, at, counts) = elim (Bool-cases (j == i)) [
  | inl q ↦ cc (sym e ∙ ap (λ k. get k s.job.spoke_status) ((eq_iff j i).0 q) ∙ at)
  | inr q ↦ (x, at, rw q (ground (arith, counts)))
]
report-IsCounted i j p n s (some st) e c =
    let (x, at, counts) =
      put-IsCounted i j st (if is_error p.status then 1 else 0) n s (reported_state st p) e
        (ground arith) c in
    (x, at, counts ∙ ground arith)

retry-IsCounted :
    (i j : String) (m : ℕ) (sent : Bool) (timers : List (String × ℕ)) (n : ℕ) (s : Reseed)
    (d : Option ℕ) (o : Option SpokeState)
    → get j s.job.spoke_status ≡ o
    → IsCounted i n s
    → IsCounted i (n + 0) (retry_of j m sent (record s { timers = timers }) d o)
unfolding refresh_backup_job_status
retry-IsCounted i j m sent timers n s none o e (x, at, counts) = (x, at, ground (arith, counts))
retry-IsCounted i j m sent timers n s (some d) none e (x, at, counts) =
    (x, at, ground (arith, counts))
retry-IsCounted i j m sent timers n s (some d) (some st) e (x, at, counts) =
    elim (Bool-cases (is_due m st)) [
      | inl due ↦
          let (y, there, kept) =
            put-IsCounted i j st 0 n s (dispatched_state sent st) e (ground arith)
              (x, at, counts) in
          rw due (y, there, ground (arith, kept))
      | inr late ↦ rw late (x, at, ground (arith, counts))
    ]

Step-IsCounted :
    (i : String) (n : ℕ) {s t : Reseed} (step : Step s t)
    → IsCounted i n s
    → IsCounted i (n + errors_in i step) t
unfolding update_reseed_progress retry_reseed
Step-IsCounted i n (reports s j p) c = report-IsCounted i j p n s _ refl c
Step-IsCounted i n (fires s j m sent xs ys t) c = retry-IsCounted i j m sent _ n s _ _ refl c

Reach-IsCounted :
    (i : String) {s t : Reseed} (r : Reach s t) → IsCounted i 0 s → IsCounted i (errors_on i r) t
Reach-IsCounted i here c = c
Reach-IsCounted i (next r step) c = Step-IsCounted i (errors_on i r) step (Reach-IsCounted i r c)

reach-Bounded :
    (i : String) {s t : Reseed} → s.timers ≡ [] → s.dispatched ≡ [] → Reach s t → Bounded i t
reach-Bounded i none_waits none_sent here = record {
  by_failures = rw (none_waits, none_sent) (omega arith);
  by_three = rw (none_waits, none_sent) (omega arith);
}
reach-Bounded i none_waits none_sent (next r step) =
    Step-Bounded i step (reach-Bounded i none_waits none_sent r)

-- From a job of which no retry was started, and which has counted no error of this spoke, one of its
-- own, through any reports of spokes and any ends of delays: the job has counted exactly the errors
-- that the spoke reported, and the retries of the spoke, waiting or dispatched, are no more than
-- these errors, and at most three.
pub Reach-Bounded :
    (i : String) {s t : Reseed}
    → s.timers ≡ []
    → s.dispatched ≡ []
    → IsCounted i 0 s
    → (r : Reach s t)
    → IsCounted i (errors_on i r) t
      × (tally i t.timers + tally i t.dispatched ≤ errors_on i r)
      × (tally i t.timers + tally i t.dispatched ≤ 3)
Reach-Bounded i none_waits none_sent c r =
    let (st, at, counts) = Reach-IsCounted i r c in
    let b = reach-Bounded i none_waits none_sent r in
    ((st, at, counts), ground (arith, b.by_failures, ap count_of at, counts), b.by_three)
