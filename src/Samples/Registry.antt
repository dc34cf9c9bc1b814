-- ===== src/Samples/Registry.antt =====
-- The theorems about added and removed jobs, at sample jobs.
use agent_pulse.Base.{
  pos, lit, equal, sort_insert, sort_by, ℕ, ◌≡◌, refl, none, some, List, [], ◌∷◌,
}
use agent_pulse.Cron.{parsed}
use agent_pulse.Config.{run_on_wake, policy_to_string, missed_run_policy_from_string, Job}
use agent_pulse.Db.{done, c_text, upsert_row, stored_def, upsert_job_def, load_job_defs}
use agent_pulse.Scheduler.{Scheduler, find_job_in, find_job, publish_status}
use agent_pulse.Scheduler.Loop.Due.{DistinctJobs}
use agent_pulse.Scheduler.Jobs.{
  schedule_of, job_from_def, def_from_job, merge_defs, store_job, add_job, remove_job,
}
use agent_pulse.Scheduler.Jobs.Names.{ui_job}
use agent_pulse.Scheduler.Jobs.Add.{Added, add_job-Added}
use agent_pulse.Scheduler.Jobs.Remove.{Removed, remove_job-Removed}
use agent_pulse.Scheduler.Jobs.Registry.{Edit, adds, removes, edits, edits-DistinctJobs}
use agent_pulse.Scheduler.Jobs.Persist.{IsStorable, job_from_def-def_from_job}
use agent_pulse.Scheduler.Jobs.Restart.{add_job-restart}
use agent_pulse.Samples.{clock, backup, cleanup, scheduler_with}

abbrev pub report : Job
report = record {
  name = b'n' ∷ [];
  command = b'c' ∷ [];
  schedule = none;
  schedule_expr = [];
  missed_run_policy = run_on_wake;
  timeout_seconds = pos 5;
  retries = pos 2;
  source = [];
}

abbrev pub idle : Scheduler ℕ
idle = scheduler_with [] []

add_job-Added_example :
    Added clock none (pos 10) report idle (add_job clock none (pos 10) report idle)
add_job-Added_example = add_job-Added clock none (pos 10) report idle

remove_job-Removed_example : Removed none (b'd' ∷ []) idle (remove_job none (b'd' ∷ []) idle)
remove_job-Removed_example = remove_job-Removed none (b'd' ∷ []) idle

names_differ : DistinctJobs idle.jobs
unfolding equal
names_differ = ((refl, tt), (tt, tt))

abbrev some_edits : List Edit
some_edits = adds none (pos 10) report ∷ removes none (b'd' ∷ []) ∷ adds none (pos 20) cleanup ∷ []

edits-DistinctJobs_example : DistinctJobs (edits clock some_edits idle).jobs
edits-DistinctJobs_example = edits-DistinctJobs clock some_edits idle names_differ

storable : IsStorable report
unfolding schedule_of
storable = record { name_ok = (refl, tt); command_ok = (refl, tt); expr_ok = tt; parsed_ok = refl }

job_from_def-def_from_job_example :
    job_from_def (stored_def (def_from_job report)) ≡ parsed (ui_job report)
job_from_def-def_from_job_example = job_from_def-def_from_job report storable

abbrev taken : Scheduler ℕ
taken = (add_job clock none (pos 10) report idle).0

taken_ok : (add_job clock none (pos 10) report idle).1 ≡ []
unfolding add_job store_job upsert_job_def find_job equal
taken_ok = refl

loaded_again : load_job_defs none taken.db ≡ done (def_from_job report ∷ [])
unfolding add_job store_job upsert_job_def find_job equal load_job_defs sort_by sort_insert
    upsert_row stored_def def_from_job c_text publish_status policy_to_string lit
loaded_again = refl

merged_again :
    merge_defs (backup ∷ []) (def_from_job report ∷ []) ≡ parsed (backup ∷ ui_job report ∷ [])
unfolding merge_defs job_from_def schedule_of def_from_job equal missed_run_policy_from_string
    policy_to_string lit
merged_again = refl

not_configured : find_job_in report.name (backup ∷ []) ≡ none
unfolding equal
not_configured = refl

add_job-restart_example :
    find_job_in report.name (backup ∷ ui_job report ∷ []) ≡ some (ui_job report)
add_job-restart_example =
    add_job-restart clock none (pos 10) report idle (def_from_job report ∷ []) (backup ∷ [])
      (backup ∷ ui_job report ∷ []) taken_ok storable tt loaded_again not_configured merged_again
