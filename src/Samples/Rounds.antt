-- ===== src/Samples/Rounds.antt =====
-- The theorems about a round of the scheduler, at sample states.
use agent_pulse.Base.{
  All, keep_if, ℤ, pos, Text, lit, equal, Dict, lookup, ℕ, ◌≡◌, refl, ◌↔◌, Bool, true, none, some,
  List, [], ◌∷◌, map,
}
use agent_pulse.Config.{Job}
use agent_pulse.Scheduler.{Scheduler, is_running_in, find_job}
use agent_pulse.Scheduler.Missed.{Scan, scan_missed}
use agent_pulse.Scheduler.Missed.Once.{Shown, scan_missed_twice}
use agent_pulse.Scheduler.Loop.{alive, terminated, due_schedule, due_jobs, select_jobs, launch_all}
use agent_pulse.Scheduler.Loop.Launch.{
  DistinctLaunches, Idle, launch_all_iff, twice_queued-terminated, unreaped-terminated,
}
use agent_pulse.Scheduler.Loop.Due.{
  DistinctJobs, IsDue, NotRunning, due_jobs-launches, due_jobs-not_due,
}
use agent_pulse.Samples.{clock, whole, backup, cleanup, scheduler_with}

abbrev on_demand : Text × Text
on_demand = (b'd' ∷ [], b'm' ∷ [])

abbrev two_launches : List (Job × Text)
two_launches = (backup, b'm' ∷ []) ∷ (cleanup, b'm' ∷ []) ∷ []

launch_all_iff_example :
    ((t : Scheduler ℕ) × (launch_all two_launches (scheduler_with [] []) ≡ alive t))
    ↔ (DistinctLaunches two_launches × Idle [] two_launches)
launch_all_iff_example = launch_all_iff two_launches (scheduler_with [] [])

abbrev asked_twice : Scheduler ℕ
asked_twice = scheduler_with [] (on_demand ∷ on_demand ∷ [])

found :
    (running : Dict Bool) (queue : List (Text × Text))
    → find_job (b'd' ∷ []) (scheduler_with running queue) ≡ some cleanup
unfolding find_job equal
found running queue = refl

twice_queued-terminated_example :
    let (selected, launches) = select_jobs clock (pos 10) asked_twice in
    launch_all launches selected ≡ terminated
unfolding is_running_in lookup
twice_queued-terminated_example =
    twice_queued-terminated clock (pos 10) asked_twice (b'd' ∷ []) (b'm' ∷ []) (b'm' ∷ []) cleanup
      [] [] [] refl (found [] (on_demand ∷ on_demand ∷ [])) refl

abbrev ended_task : Dict Bool
ended_task = (b'd' ∷ [], true) ∷ []

abbrev unreaped : Scheduler ℕ
unreaped = scheduler_with ended_task (on_demand ∷ [])

unreaped-terminated_example :
    let (selected, launches) = select_jobs clock (pos 10) unreaped in
    launch_all launches selected ≡ terminated
unfolding lookup equal
unreaped-terminated_example =
    unreaped-terminated clock (pos 10) unreaped (b'd' ∷ []) (b'm' ∷ []) cleanup [] [] refl
      (found ended_task (on_demand ∷ [])) refl

abbrev two_jobs : List Job
two_jobs = backup ∷ cleanup ∷ []

distinct_names : DistinctJobs two_jobs
unfolding equal
distinct_names = ((refl, tt), (tt, tt))

abbrev next_runs : Dict ℤ
next_runs = (b'b' ∷ [], pos 3600) ∷ []

due_jobs-launches_example :
    (fires : Job → Bool) × ((job : Job)
      → (fires job ≡ true) ↔ (IsDue (pos 3650) next_runs job × NotRunning [] job))
    × ((due_jobs clock (pos 3650) [] two_jobs next_runs).1
        ≡ map (λ job. (job, lit "schedule")) (keep_if fires two_jobs))
due_jobs-launches_example = due_jobs-launches clock (pos 3650) [] two_jobs next_runs distinct_names

due_jobs-not_due_example :
    All
      (λ job.
        due_schedule (pos 3650) (due_jobs clock (pos 3650) [] two_jobs next_runs).0 job ≡ none)
      two_jobs
due_jobs-not_due_example = due_jobs-not_due clock 3650 [] two_jobs next_runs distinct_names

abbrev scan_at : ℕ → Scan
scan_at now = record { now = pos now; time_of = λ name. pos now; fault_of = λ name. none }

scan_missed_twice_example :
    Shown whole clock
      (scan_missed whole clock
        (scan_at 3700)
        (scan_missed whole clock (scan_at 3700) (scheduler_with [] [])))
      (scan_missed whole clock (scan_at 3700) (scheduler_with [] []))
scan_missed_twice_example =
    scan_missed_twice whole clock (scan_at 3700) (scan_at 3700) (scheduler_with [] []) refl
