-- ===== src/Scheduler/Loop.antt =====
-- scheduler.cpp: one round of `loop`, `launch` and `reap_finished`. The round is a function of the
-- state and of the clock; what other threads do in the meantime are the steps in between.
pub mod Launch
pub mod Due
use agent_pulse.Base.{
  if◌then◌else◌, is_some, keep_if, ℤ, pos, ◌-ℤ◌, ltb_ℤ, Text, lit, Dict, lookup, insert, erase,
  Doubles, ℕ, Bool, true, false, not, ◌&&◌, Option, none, some, List, [], ◌∷◌, ◌++◌,
}
use agent_pulse.Cron.{CronSchedule, Tm}
use agent_pulse.Cron.Search.{next_after}
use agent_pulse.Config.{Job}
use agent_pulse.Scheduler.{Scheduler, find_job_in, is_running_in, publish_status}
use agent_pulse.Scheduler.Missed.{Scan, scan_missed}

-- The daemon goes on, or `std::terminate` ends it.
pub data Fate {ℓ} (A : Type ℓ) : Type ℓ where
  alive : A → Fate A
  terminated : Fate A

-- `kWakeGapSeconds`.
abbrev pub wake_gap_seconds : ℕ
wake_gap_seconds = 90

-- The queue is split into the requests that are deferred and the jobs that are launched.
unfoldable pub split_queue :
    List Job → Dict Bool → List (Text × Text) → List (Text × Text) × List (Job × Text)
split_queue jobs running [] = ([], [])
split_queue jobs running ((name, trigger) ∷ queue) =
    let (deferred, launches) = split_queue jobs running queue in
    elim (find_job_in name jobs) [
      | none ↦ (deferred, launches)
      | some job ↦
          if is_running_in running name
          then ((name, trigger) ∷ deferred, launches)
          else (deferred, (job, trigger) ∷ launches)
    ]

-- The entry of a job that is due moves on to the next occurrence.
unfoldable pub advance : (ℤ → Tm) → ℤ → CronSchedule → Text → Dict ℤ → Dict ℤ
advance localtime now schedule name next_run = elim (next_after localtime schedule now) [
  | none ↦ erase name next_run
  | some next ↦ insert name next next_run
]

unfoldable pub advance_due : (ℤ → Tm) → ℤ → Text → Option CronSchedule → Dict ℤ → Dict ℤ
unfolding advance
advance_due localtime now name none next_run = next_run
advance_due localtime now name (some schedule) next_run =
    advance localtime now schedule name next_run

-- The schedule of a job whose next run has come.
unfoldable pub due_schedule : ℤ → Dict ℤ → Job → Option CronSchedule
due_schedule now next_run job = elim job.schedule [
  | none ↦ none
  | some schedule ↦ elim (lookup job.name next_run) [
    | none ↦ none
    | some t ↦ if ltb_ℤ now t then none else some schedule
  ]
]

-- The loop over the due jobs: the entries that are left, and the jobs that are launched.
unfoldable pub due_jobs : (ℤ → Tm) → ℤ → Dict Bool → List Job → Dict ℤ → Dict ℤ × List (Job × Text)
unfolding due_schedule advance_due
due_jobs localtime now running [] next_run = (next_run, [])
due_jobs localtime now running (job ∷ jobs) next_run =
    let due = due_schedule now next_run job in
    let moved = advance_due localtime now job.name due next_run in
    let (later, launches) = due_jobs localtime now running jobs moved in
    let fires = is_some due && not (is_running_in running job.name) in
    (later, if fires then (job, lit "schedule") ∷ launches else launches)

module _ {D : Type 0} where
  -- `reap_finished`: the threads of the tasks that are done are joined.
  unfoldable pub reap_finished : Scheduler D → Scheduler D
  reap_finished s = record s { running = keep_if (λ task. not task.1) s.running }

  -- The section under the mutex in the middle of the round.
  unfoldable pub select_jobs : (ℤ → Tm) → ℤ → Scheduler D → Scheduler D × List (Job × Text)
  unfolding split_queue due_jobs
  select_jobs localtime now s =
      let (deferred, queued) = split_queue s.jobs s.running s.queue in
      let (next_run, due) = due_jobs localtime now s.running s.jobs s.next_run in
      (record s { queue = deferred; next_run = next_run }, queued ++ due)

  -- `running_[job.name] = std::move(task)` destroys the task that stands there, if there is one.
  -- Its thread was started and is not joined, and the destructor of such a thread terminates.
  unfoldable pub launch : Text → Scheduler D → Fate (Scheduler D)
  launch name s = elim (lookup name s.running) [
    | some ended ↦ terminated
    | none ↦ alive (record s { running = insert name false s.running })
  ]

  unfoldable pub launch_all : List (Job × Text) → Scheduler D → Fate (Scheduler D)
  unfolding launch
  launch_all [] s = alive s
  launch_all ((job, trigger) ∷ rest) s = elim (launch job.name s) [
    | terminated ↦ terminated
    | alive s' ↦ launch_all rest s'
  ]

  -- The last line of `worker`: the task of the job is marked as done.
  unfoldable pub task_done : Text → Scheduler D → Scheduler D
  task_done name s = elim (lookup name s.running) [
    | none ↦ s
    | some ended ↦ record s { running = insert name true s.running }
  ]

module _ (doubles : Doubles) where
  open doubles use {Double}

  -- The wall clock has jumped, or the power monitor has seen a wake. In the first case the flag
  -- of the monitor is not read.
  unfoldable pub check_wake : (ℤ → Tm) → Scan → Scheduler Double → Scheduler Double
  check_wake localtime scan s =
      let gap_wake = ltb_ℤ (pos wake_gap_seconds) (scan.now -ℤ s.last_wall) in
      let woken = record s { last_wall = scan.now } in
      if gap_wake
      then scan_missed doubles localtime scan woken
      else if s.wake_pending
      then scan_missed doubles localtime scan (record woken { wake_pending = false })
      else woken

  -- One round of `loop` at a wall clock of `scan.now`, up to the sleep.
  unfoldable pub loop_round : (ℤ → Tm) → Scan → Scheduler Double → Fate (Scheduler Double)
  unfolding reap_finished check_wake select_jobs launch_all
  loop_round localtime scan s =
      let (selected, launches) =
        select_jobs localtime scan.now (check_wake localtime scan (reap_finished s)) in
      elim (launch_all launches selected) [
        | terminated ↦ terminated
        | alive s' ↦ alive (publish_status s')
      ]
