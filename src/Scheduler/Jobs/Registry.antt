-- ===== src/Scheduler/Jobs/Registry.antt =====
-- scheduler.cpp: the names of the jobs under `add_job` and `remove_job`.
use agent_pulse.Base.{ℤ, Text, equal, not, Option, List, [], ◌∷◌}
use agent_pulse.Cron.{Tm}
use agent_pulse.Config.{Job}
use agent_pulse.Scheduler.{Scheduler}
use agent_pulse.Scheduler.Jobs.{add_job, remove_job}
use agent_pulse.Scheduler.Loop.Due.{DistinctJobs}
use agent_pulse.Scheduler.Jobs.Names.{ui_job, DistinctJobs-concat, DistinctJobs-keep_if}
use agent_pulse.Scheduler.Jobs.Add.{Added, refused, accepted, add_job-Added}
use agent_pulse.Scheduler.Jobs.Remove.{Removed, kept, gone, remove_job-Removed}

-- Calls of the interface that change the set of jobs, with the error of SQLite, if any.
pub data Edit : Type 0 where
  adds : Option Text → ℤ → Job → Edit
  removes : Option Text → Text → Edit

module _ {D : Type 0} where
  Removed-DistinctJobs :
      {fault : Option Text} {name : Text} {s : Scheduler D} {r : Scheduler D × Text}
      → Removed fault name s r
      → DistinctJobs s.jobs
      → DistinctJobs r.0.jobs
  Removed-DistinctJobs (kept m n) d = d
  Removed-DistinctJobs {name} {s} (gone a jobs b c e f g h) d =
      rw jobs (DistinctJobs-keep_if (λ job. not (equal job.name name)) s.jobs d)

  Added-DistinctJobs :
      {localtime : ℤ → Tm} {fault : Option Text} {now : ℤ} {job : Job} {s : Scheduler D}
      {r : Scheduler D × Text}
      → Added localtime fault now job s r
      → DistinctJobs s.jobs
      → DistinctJobs r.0.jobs
  Added-DistinctJobs (refused m n) d = d
  Added-DistinctJobs {job} {s} (accepted a jobs b c e f) d =
      rw jobs (DistinctJobs-concat s.jobs (ui_job job) d a.2)

  abbrev pub edit : (ℤ → Tm) → Edit → Scheduler D → Scheduler D
  edit localtime (adds fault now job) s = (add_job localtime fault now job s).0
  edit localtime (removes fault name) s = (remove_job fault name s).0

  abbrev pub edits : (ℤ → Tm) → List Edit → Scheduler D → Scheduler D
  edits localtime [] s = s
  edits localtime (e ∷ es) s = edits localtime es (edit localtime e s)

  edit-DistinctJobs :
      (localtime : ℤ → Tm) (e : Edit) (s : Scheduler D)
      → DistinctJobs s.jobs
      → DistinctJobs (edit localtime e s).jobs
  edit-DistinctJobs localtime (adds fault now job) s =
      Added-DistinctJobs (add_job-Added localtime fault now job s)
  edit-DistinctJobs localtime (removes fault name) s =
      Removed-DistinctJobs (remove_job-Removed fault name s)

  -- However jobs are added and removed, one call after the other, their names stay pairwise
  -- different.
  pub edits-DistinctJobs :
      (localtime : ℤ → Tm) (es : List Edit) (s : Scheduler D)
      → DistinctJobs s.jobs
      → DistinctJobs (edits localtime es s).jobs
  edits-DistinctJobs localtime [] s d = d
  edits-DistinctJobs localtime (e ∷ es) s d =
      edits-DistinctJobs localtime es (edit localtime e s) (edit-DistinctJobs localtime e s d)
