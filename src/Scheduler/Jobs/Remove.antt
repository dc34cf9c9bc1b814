-- ===== src/Scheduler/Jobs/Remove.antt =====
-- scheduler.cpp, `remove_job`: what it does, and when.
use agent_pulse.Base.{
  Bool-cases, Option-cases, keep_if, Text, lit, equal, equal_iff, erase, ◌≡◌, refl, sym, ap, ◌∙◌,
  ◌≢◌, inl, inr, false, not, Option, none, some, [], ◌++◌,
}
use agent_pulse.Config.{Job}
use agent_pulse.Db.{c_text, delete_job_def}
use agent_pulse.Scheduler.{Scheduler, find_job_in, find_job, publish_status}
use agent_pulse.Scheduler.Jobs.{drop_job, remove_job}
use mathlib.Core.Bool.{false≢true}
use agent_pulse.Scheduler.Jobs.Names.{without}
use agent_pulse.Scheduler.Jobs.Add.{some-ne-none}

refusal-ne-nil :
    ((t u : Text) → lit "no such job: '" ++ t ++ u ≢ [])
    × ((t u : Text) → lit "job '" ++ t ++ u ≢ [])
    × ((t : Text) → lit "could not delete job: " ++ t ≢ [])
unfolding lit
refusal-ne-nil = (λ t u e. cc, λ t u e. cc, λ t e. cc)

module _ {D : Type 0} where
  -- The job of this name can be removed: it was added from the interface.
  abbrev pub Removable : Option Text → Text → Scheduler D → Type 0
  Removable fault name s =
      (job : Job) × (find_job_in name s.jobs ≡ some job) × (job.source ≡ lit "ui") × (fault ≡ none)

  -- The ends of `remove_job`.
  pub data Removed (fault : Option Text) (name : Text) (s : Scheduler D)
      : Scheduler D × Text → Type 0 where
    kept :
        {message : Text}
        → message ≢ []
        → ¬ Removable fault name s
        → Removed fault name s (s, message)
    gone :
        {t : Scheduler D}
        → Removable fault name s
        → t.jobs ≡ without name s.jobs
        → t.next_run ≡ erase name s.next_run
        → t.last_runs ≡ erase name s.last_runs
        → t.missed_handled ≡ erase name s.missed_handled
        → t.db.job_defs ≡ keep_if (λ d. not (equal d.name (c_text name))) s.db.job_defs
        → t.queue ≡ s.queue
        → t.running ≡ s.running
        → Removed fault name s (t, [])

  drop_job-Removed :
      (fault : Option Text) (name : Text) (s : Scheduler D) (job : Job)
      → find_job_in name s.jobs ≡ some job
      → job.source ≡ lit "ui"
      → Removed fault name s (drop_job fault name s)
  unfolding drop_job delete_job_def publish_status
  drop_job-Removed none name s job f u = gone (job, f, u, refl) refl refl refl refl refl refl refl
  drop_job-Removed (some why) name s job f u = kept (refusal-ne-nil.2 why) λ r. some-ne-none r.3

  -- `remove_job` succeeds exactly for the name of a job that was added from the interface, when the
  -- database takes it: then every trace of the name is gone from the jobs, their next and last runs,
  -- the missed runs and the table. Otherwise there is a message, and nothing has changed.
  pub remove_job-Removed :
      (fault : Option Text) (name : Text) (s : Scheduler D)
      → Removed fault name s (remove_job fault name s)
  unfolding remove_job find_job
  remove_job-Removed fault name s = elim (Option-cases (find_job_in name s.jobs)) [
    | inl e ↦
        rw (remove_job, find_job, e)
          (kept (refusal-ne-nil.0 name _) λ r. some-ne-none (sym r.1 ∙ e))
    | inr (job, e) ↦ elim (Bool-cases (equal job.source (lit "ui"))) [
      | inr other ↦
          rw (remove_job, find_job, e)
            (rw other (kept (refusal-ne-nil.1 name _) λ r. mismatch job e other r))
      | inl ui ↦
          rw (remove_job, find_job, e)
            (rw ui (drop_job-Removed fault name s job e ((equal_iff job.source (lit "ui")).0 ui)))
    ]
  ]
    where
      mismatch :
          (job : Job)
          → find_job_in name s.jobs ≡ some job
          → equal job.source (lit "ui") ≡ false
          → Removable fault name s
          → ⊥
      mismatch job e other (j, f, u, w) =
          let same : job ≡ j = (let g = sym e ∙ f in cc) in
          false≢true (sym other ∙ (equal_iff job.source (lit "ui")).1 (ap (λ x. x.source) same ∙ u))
