-- ===== src/Scheduler/Loop/Due.antt =====
-- scheduler.cpp, the loop over the due jobs in `loop`: an occurrence fires once.
use agent_pulse.Scheduler.{is_running_in}
use agent_pulse.Cron.Search.Nearest.{next_after-nearest}
use agent_pulse.Base.{
  if◌then◌else◌, is_some, Option-cases, All, keep_if, ℤ, pos, ◌<ℤ◌, ◌≤ℤ◌, ◌≢◌, ◌↔◌, Text, lit,
  equal, equal_refl, equal_swap, Dict, lookup, lookup-insert, lookup-erase, ℕ, ◌≡◌, refl, sym, ◌∙◌,
  inl, inr, Bool, true, false, not, ◌&&◌, Option, none, some, List, [], ◌∷◌, map, arith,
}
use agent_pulse.Cron.{CronSchedule, Tm}
use agent_pulse.Cron.Search.{next_after}
use agent_pulse.Config.{Job}
use agent_pulse.Scheduler.Loop.{advance, advance_due, due_schedule, due_jobs}

-- No job of the list has this name, and the jobs of a list have pairwise different names.
abbrev pub Unused : Text → List Job → Type 0
Unused name = All (λ job. equal name job.name ≡ false)

abbrev pub DistinctJobs : List Job → Type 0
DistinctJobs [] = Unit
DistinctJobs (job ∷ jobs) = Unused job.name jobs × DistinctJobs jobs

-- No task of the job is there that has not ended.
abbrev pub NotRunning : Dict Bool → Job → Type 0
NotRunning running job = lookup job.name running ≢ some false

is_running_in-NotRunning :
    (running : Dict Bool) (job : Job)
    → (is_running_in running job.name ≡ false) ↔ NotRunning running job
unfolding is_running_in
is_running_in-NotRunning running job = elim (Option-cases (lookup job.name running)) [
  | inl e ↦ (λ h there. absurd (cc (e, there)), λ h. rw (is_running_in, e) refl)
  | inr (true, e) ↦ (λ h there. absurd (cc there), λ h. rw (is_running_in, e) refl)
  | inr (false, e) ↦ (λ h. absurd (ground (arith, h, e)), λ h. absurd (h e))
]

module _ (now : ℤ) where
  -- The job has a schedule and an entry for its next run, which has come.
  abbrev pub IsDue : Dict ℤ → Job → Type 0
  IsDue next_run job =
      ((schedule : CronSchedule) × (job.schedule ≡ some schedule))
      × ((t : ℤ) × (lookup job.name next_run ≡ some t) × (t ≤ℤ now))

  due_schedule-IsDue :
      (next_run : Dict ℤ) (job : Job)
      → (is_some (due_schedule now next_run job) ≡ true) ↔ IsDue next_run job
  unfolding due_schedule
  due_schedule-IsDue next_run job = elim (Option-cases job.schedule) [
    | inl e ↦ (λ h. absurd (ground (arith, h, e)), λ h. absurd (ground (arith, h.0.1, e)))
    | inr (schedule, e) ↦ elim (Option-cases (lookup job.name next_run)) [
      | inl f ↦ (λ h. absurd (ground (arith, h, e, f)), λ h. absurd (ground (arith, h.1.1, f)))
      | inr (t, f) ↦ (
        λ h. ((schedule, e), (t, f, ground (arith, h, e, f))),
        λ h.
            let same : h.1.0 ≡ t = (let g = h.1.1 in cc) in
            let le = h.1.2 in ground (arith, e, f, same, le),
      )
    ]
  ]

module _ (localtime : ℤ → Tm) (now : ℤ) where
  -- The entry of the job after its turn.
  abbrev moved : Dict ℤ → Job → Dict ℤ
  moved next_run job = advance_due localtime now job.name (due_schedule now next_run job) next_run

  lookup-advance_other :
      (due : Option CronSchedule) (next_run : Dict ℤ) (key name : Text)
      → equal key name ≡ false
      → lookup name (advance_due localtime now key due next_run) ≡ lookup name next_run
  unfolding advance_due
  lookup-advance_other none next_run key name h = refl
  lookup-advance_other (some schedule) next_run key name h =
      elim (Option-cases (next_after localtime schedule now)) [
        | inl e ↦ rw (advance, e) (lookup-erase key name next_run ∙ rw h)
        | inr (t, e) ↦ rw (advance, e) (lookup-insert key name t next_run ∙ rw h)
      ]

  due_schedule-lookup :
      (m n : Dict ℤ) (job : Job)
      → lookup job.name m ≡ lookup job.name n
      → due_schedule now m job ≡ due_schedule now n job
  unfolding due_schedule
  due_schedule-lookup m n job e = ground arith

  due_schedule-none :
      (m : Dict ℤ) (job : Job) → lookup job.name m ≡ none → due_schedule now m job ≡ none
  unfolding due_schedule
  due_schedule-none m job e = ground arith

  due_schedule_later :
      (m : Dict ℤ) (job : Job) (t : ℤ)
      → lookup job.name m ≡ some t
      → now <ℤ t
      → due_schedule now m job ≡ none
  unfolding due_schedule
  due_schedule_later m job t e h = ground arith

  due_jobs-lookup_other :
      (running : Dict Bool) (jobs : List Job) (next_run : Dict ℤ) (name : Text)
      → Unused name jobs
      → lookup name (due_jobs localtime now running jobs next_run).0 ≡ lookup name next_run
  unfolding due_jobs
  due_jobs-lookup_other running [] next_run name u = refl
  due_jobs-lookup_other running (job ∷ jobs) next_run name u =
      due_jobs-lookup_other running jobs (moved next_run job) name u.1
      ∙ lookup-advance_other (due_schedule now next_run job) next_run job.name name
          (equal_swap name job.name u.0)

  -- Whether the round launches the job for its schedule.
  abbrev fires_now : Dict Bool → Dict ℤ → Job → Bool
  fires_now running next_run job =
      is_some (due_schedule now next_run job) && not (is_running_in running job.name)

  due_schedule-moved :
      (next_run : Dict ℤ) (job other : Job)
      → equal job.name other.name ≡ false
      → due_schedule now (moved next_run job) other ≡ due_schedule now next_run other
  due_schedule-moved next_run job other h =
      due_schedule-lookup (moved next_run job) next_run other
        (lookup-advance_other (due_schedule now next_run job) next_run job.name other.name h)

  keep_if-moved :
      (running : Dict Bool) (next_run : Dict ℤ) (job : Job) (jobs : List Job)
      → Unused job.name jobs
      → keep_if (fires_now running (moved next_run job)) jobs
        ≡ keep_if (fires_now running next_run) jobs
  keep_if-moved running next_run job [] u = refl
  keep_if-moved running next_run job (other ∷ jobs) u =
      rw (due_schedule-moved next_run job other u.0)
        (rw (keep_if-moved running next_run job jobs u.1))

  abbrev scheduled : List Job → List (Job × Text)
  scheduled = map λ job. (job, lit "schedule")

  scheduled-if :
      (b : Bool) (job : Job) (jobs : List Job)
      → scheduled (if b then job ∷ jobs else jobs)
        ≡ (if b then (job, lit "schedule") ∷ scheduled jobs else scheduled jobs)
  scheduled-if true job jobs = refl
  scheduled-if false job jobs = refl

  launches_kept :
      (running : Dict Bool) (jobs : List Job) (next_run : Dict ℤ)
      → DistinctJobs jobs
      → (due_jobs localtime now running jobs next_run).1
        ≡ map (λ job. (job, lit "schedule")) (keep_if (fires_now running next_run) jobs)
  unfolding due_jobs
  launches_kept running [] next_run d = refl
  launches_kept running (job ∷ jobs) next_run d =
      rw (launches_kept running jobs (moved next_run job) d.1) (
        rw (keep_if-moved running next_run job jobs d.0) (
          sym (
            scheduled-if (fires_now running next_run job) job
              (keep_if (fires_now running next_run) jobs))))

  fires_now_iff :
      (running : Dict Bool) (next_run : Dict ℤ) (job : Job)
      → (fires_now running next_run job ≡ true) ↔ (IsDue now next_run job × NotRunning running job)
  fires_now_iff running next_run job =
      let due = due_schedule-IsDue now next_run job in
      let idle = is_running_in-NotRunning running job in
      (
        λ h. (due.0 (ground (arith, h)), idle.0 (ground (arith, h))),
        λ h. let a = due.1 h.0 in let b = idle.1 h.1 in rw (a, b) refl,
      )

  -- With pairwise different names, the launches for schedules are, in the order of the jobs, one
  -- for each job that has a schedule, whose next run is at the time or before it, and of which no
  -- task is running, and no other.
  pub due_jobs-launches :
      (running : Dict Bool) (jobs : List Job) (next_run : Dict ℤ)
      → DistinctJobs jobs
      → (fires : Job → Bool) × ((job : Job)
          → (fires job ≡ true) ↔ (IsDue now next_run job × NotRunning running job))
        × ((due_jobs localtime now running jobs next_run).1
            ≡ map (λ job. (job, lit "schedule")) (keep_if fires jobs))
  due_jobs-launches running jobs next_run d = (
    fires_now running next_run,
    fires_now_iff running next_run,
    launches_kept running jobs next_run d,
  )

module _ (localtime : ℤ → Tm) (a : ℕ) where
  advance_not_due :
      (next_run : Dict ℤ) (job : Job)
      → due_schedule (pos a) (moved localtime (pos a) next_run job) job ≡ none
  unfolding advance_due advance
  advance_not_due next_run job = elim (Option-cases (due_schedule (pos a) next_run job)) [
    | inl idle ↦ rw (idle, idle)
    | inr (schedule, due) ↦ elim (Option-cases (next_after localtime schedule (pos a))) [
      | inl e ↦ due_schedule-none localtime (pos a) _ job (
          rw (due, advance, e) (lookup-erase job.name job.name next_run ∙ rw (equal_refl job.name)))
      | inr (t, e) ↦
          let (k, at, after, _, _) = next_after-nearest localtime schedule a t e in
          due_schedule_later localtime (pos a) _ job t
            (rw (due, advance, e)
              (lookup-insert job.name job.name t next_run ∙ rw (equal_refl job.name)))
            (rw at (omega (arith, after)))
    ]
  ]

  -- After the loop over the due jobs, at a time since the epoch and with pairwise different names,
  -- no job is due any more at that time: an occurrence is not fired again.
  pub due_jobs-not_due :
      (running : Dict Bool) (jobs : List Job) (next_run : Dict ℤ)
      → DistinctJobs jobs
      → All
          (λ job.
            due_schedule (pos a) (due_jobs localtime (pos a) running jobs next_run).0 job ≡ none)
          jobs
  unfolding due_jobs
  due_jobs-not_due running [] next_run d = tt
  due_jobs-not_due running (job ∷ jobs) next_run d = (
    due_schedule-lookup localtime (pos a) _ _ job (
          due_jobs-lookup_other localtime (pos a) running jobs
            (moved localtime (pos a) next_run job) job.name d.0)
        ∙ advance_not_due next_run job,
    due_jobs-not_due running jobs (moved localtime (pos a) next_run job) d.1,
  )
