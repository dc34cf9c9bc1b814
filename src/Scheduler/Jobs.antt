-- ===== src/Scheduler/Jobs.antt =====
-- scheduler.cpp: the constructor, `add_job` and `remove_job`.
pub mod Names
pub mod Add
pub mod Remove
pub mod Registry
pub mod Persist
pub mod Restart
use agent_pulse.Base.{
  if◌then◌else◌, is_some, keep_if, ℤ, pos, Text, lit, equal, is_empty, Dict, insert, erase, false,
  not, Option, none, some, List, [], ◌∷◌, ◌++◌,
}
use agent_pulse.Cron.{Parsed, parsed, malformed, overflow, ◌>>=◌, CronSchedule, parse, Tm}
use agent_pulse.Cron.Search.{next_after}
use agent_pulse.Config.{policy_to_string, missed_run_policy_from_string, Job}
use agent_pulse.State.{SharedState}
use agent_pulse.Db.{
  JobDef, Database, DbResult, done, db_error, last_run, upsert_job_def, delete_job_def,
  load_job_defs,
}
use agent_pulse.Scheduler.{Scheduler, find_job_in, find_job, publish_status}

-- The `if` of `job_from_def`; `overflow` is that of the parser.
unfoldable pub schedule_of : Text → Parsed (Option CronSchedule)
schedule_of [] = parsed none
schedule_of (c ∷ expr) = elim (parse (c ∷ expr)) [
  | parsed schedule ↦ parsed (some schedule)
  | malformed ↦ parsed none
  | overflow ↦ overflow
]

unfoldable pub job_from_def : JobDef → Parsed Job
unfolding schedule_of
job_from_def def = do
  schedule ← schedule_of def.schedule_expr
  parsed (record {
    name = def.name;
    command = def.command;
    schedule = schedule;
    schedule_expr = def.schedule_expr;
    missed_run_policy = missed_run_policy_from_string def.missed_run_policy;
    timeout_seconds = def.timeout_seconds;
    retries = def.retries;
    source = lit "ui";
  })

unfoldable pub def_from_job : Job → JobDef
def_from_job job = record {
  name = job.name;
  command = job.command;
  schedule_expr = job.schedule_expr;
  missed_run_policy = policy_to_string job.missed_run_policy;
  timeout_seconds = job.timeout_seconds;
  retries = job.retries;
}

-- The loop of the constructor over the stored definitions: jobs that are there already win.
unfoldable pub merge_defs : List Job → List JobDef → Parsed (List Job)
unfolding job_from_def
merge_defs jobs [] = parsed jobs
merge_defs jobs (def ∷ defs) = elim (find_job_in def.name jobs) [
  | some job ↦ merge_defs jobs defs
  | none ↦ do job ← job_from_def def; merge_defs (jobs ++ job ∷ []) defs
]

-- An entry of `next_run_`, if the job has a schedule with a next time.
unfoldable pub set_next_run : (ℤ → Tm) → ℤ → Job → Dict ℤ → Dict ℤ
set_next_run localtime now job next_run = elim job.schedule [
  | none ↦ next_run
  | some schedule ↦ elim (next_after localtime schedule now) [
    | none ↦ next_run
    | some next ↦ insert job.name next next_run
  ]
]

module _ {D : Type 0} where
  -- The loop of the constructor over the jobs; an error of `last_run` ends it.
  unfoldable pub init_jobs :
      (ℤ → Tm) → (Text → Option Text) → ℤ → List Job → Scheduler D → DbResult (Scheduler D)
  unfolding set_next_run
  init_jobs localtime fault_of now [] s = done s
  init_jobs localtime fault_of now (job ∷ jobs) s =
      let next_run = set_next_run localtime now job s.next_run in
      elim (last_run (fault_of job.name) job.name s.db) [
        | db_error e ↦ db_error e
        | done none ↦ init_jobs localtime fault_of now jobs (record s { next_run = next_run })
        | done (some r) ↦
            init_jobs localtime fault_of now jobs
              (record s { next_run = next_run; last_runs = insert job.name r s.last_runs })
      ]

  -- The fields before the loops of the constructor.
  abbrev pub blank : List Job → Database D → SharedState D → Scheduler D
  blank jobs db state = record {
    jobs = jobs;
    next_run = [];
    running = [];
    last_runs = [];
    missed_handled = [];
    queue = [];
    last_wall = pos 0;
    wake_pending = false;
    active = false;
    db = db;
    state = state;
    notifications = [];
  }

  -- The constructor, once the database is open and migrated.
  unfoldable pub construct :
      (ℤ → Tm)
      → Option Text
      → (Text → Option Text)
      → ℤ
      → List Job
      → Database D
      → SharedState D
      → Parsed (DbResult (Scheduler D))
  unfolding init_jobs merge_defs
  construct localtime load_fault fault_of now jobs db state = elim (load_job_defs load_fault db) [
    | db_error e ↦ parsed (db_error e)
    | done defs ↦ do
      all_jobs ← merge_defs jobs defs
      parsed (elim (init_jobs localtime fault_of now all_jobs (blank all_jobs db state)) [
        | db_error e ↦ db_error e
        | done s ↦ done (publish_status s)
      ])
  ]

  -- `add_job` once its checks have passed.
  unfoldable pub store_job : (ℤ → Tm) → Option Text → ℤ → Job → Scheduler D → Scheduler D × Text
  unfolding set_next_run def_from_job
  store_job localtime fault now stored s = elim (upsert_job_def fault (def_from_job stored) s.db) [
    | db_error e ↦ (s, lit "could not persist job: " ++ e)
    | done db ↦ (
      publish_status (record s {
        db = db;
        jobs = s.jobs ++ stored ∷ [];
        next_run = set_next_run localtime now stored s.next_run;
      }),
      [],
    )
  ]

  -- The message is empty on success.
  unfoldable pub add_job : (ℤ → Tm) → Option Text → ℤ → Job → Scheduler D → Scheduler D × Text
  unfolding store_job
  add_job localtime fault now job s =
      if is_empty job.name
      then (s, lit "job name is required")
      else if is_empty job.command
      then (s, lit "job command is required")
      else if is_some (find_job job.name s)
      then (s, lit "a job named '" ++ job.name ++ lit "' already exists")
      else store_job localtime fault now (record job { source = lit "ui" }) s

  unfoldable pub drop_job : Option Text → Text → Scheduler D → Scheduler D × Text
  drop_job fault name s = elim (delete_job_def fault name s.db) [
    | db_error e ↦ (s, lit "could not delete job: " ++ e)
    | done db ↦ (
      publish_status (record s {
        db = db;
        jobs = keep_if (λ job. not (equal job.name name)) s.jobs;
        next_run = erase name s.next_run;
        last_runs = erase name s.last_runs;
        missed_handled = erase name s.missed_handled;
      }),
      [],
    )
  ]

  unfoldable pub remove_job : Option Text → Text → Scheduler D → Scheduler D × Text
  unfolding drop_job
  remove_job fault name s = elim (find_job name s) [
    | none ↦ (s, lit "no such job: '" ++ name ++ lit "'")
    | some job ↦
        if not (equal job.source (lit "ui"))
        then (s, lit "job '" ++ name ++ lit "' is defined in config.yaml")
        else drop_job fault name s
  ]
