-- ===== src/Scheduler/Jobs/Names.antt =====
-- scheduler.cpp: lists of jobs, searched and edited by name.
use agent_pulse.Base.{
  if◌then◌else◌, Bool-cases, keep_if, Text, lit, equal, equal_iff, equal_refl, equal_swap, ◌≡◌,
  refl, inl, inr, Bool, false, not, none, some, List, [], ◌∷◌, ◌++◌, arith,
}
use agent_pulse.Config.{Job}
use agent_pulse.Scheduler.{find_job_in}
use agent_pulse.Scheduler.Loop.Due.{Unused, DistinctJobs}

-- The job as `add_job` stores it.
abbrev pub ui_job : Job → Job
ui_job job = record job { source = lit "ui" }

pub find_job_in-Unused :
    (name : Text) (jobs : List Job) → find_job_in name jobs ≡ none → Unused name jobs
find_job_in-Unused name [] e = tt
find_job_in-Unused name (job ∷ jobs) e = elim (Bool-cases (equal job.name name)) [
  | inl same ↦ ground arith
  | inr other ↦ (equal_swap job.name name other, find_job_in-Unused name jobs (rw other at e))
]

pub Unused-find_job_in :
    (name : Text) (jobs : List Job) → Unused name jobs → find_job_in name jobs ≡ none
Unused-find_job_in name [] u = refl
Unused-find_job_in name (job ∷ jobs) u =
    rw (equal_swap name job.name u.0) (Unused-find_job_in name jobs u.1)

Unused-concat :
    (name : Text) (jobs : List Job) (job : Job)
    → Unused name jobs
    → equal name job.name ≡ false
    → Unused name (jobs ++ job ∷ [])
Unused-concat name [] job u h = (h, tt)
Unused-concat name (j ∷ jobs) job u h = (u.0, Unused-concat name jobs job u.1 h)

pub DistinctJobs-concat :
    (jobs : List Job) (job : Job)
    → DistinctJobs jobs
    → find_job_in job.name jobs ≡ none
    → DistinctJobs (jobs ++ job ∷ [])
DistinctJobs-concat [] job d f = (tt, tt)
DistinctJobs-concat (j ∷ jobs) job d f =
    let u = find_job_in-Unused job.name (j ∷ jobs) f in
    (
      Unused-concat j.name jobs job d.0 (equal_swap job.name j.name u.0),
      DistinctJobs-concat jobs job d.1 (Unused-find_job_in job.name jobs u.1),
    )

pub find_job_in-concat :
    (jobs : List Job) (job : Job)
    → find_job_in job.name jobs ≡ none
    → find_job_in job.name (jobs ++ job ∷ []) ≡ some job
find_job_in-concat [] job f = rw (equal_refl job.name)
find_job_in-concat (j ∷ jobs) job f = elim (Bool-cases (equal j.name job.name)) [
  | inl same ↦ ground arith
  | inr other ↦ rw other (find_job_in-concat jobs job (rw other at f))
]

Unused-keep_if :
    (name : Text) (p : Job → Bool) (jobs : List Job)
    → Unused name jobs
    → Unused name (keep_if p jobs)
Unused-keep_if name p [] u = tt
Unused-keep_if name p (j ∷ jobs) u = elim (Bool-cases (p j)) [
  | inl kept ↦ rw kept (u.0, Unused-keep_if name p jobs u.1)
  | inr gone ↦ rw gone (Unused-keep_if name p jobs u.1)
]

pub DistinctJobs-keep_if :
    (p : Job → Bool) (jobs : List Job) → DistinctJobs jobs → DistinctJobs (keep_if p jobs)
DistinctJobs-keep_if p [] d = tt
DistinctJobs-keep_if p (j ∷ jobs) d = elim (Bool-cases (p j)) [
  | inl kept ↦ rw kept (Unused-keep_if j.name p jobs d.0, DistinctJobs-keep_if p jobs d.1)
  | inr gone ↦ rw gone (DistinctJobs-keep_if p jobs d.1)
]

-- What is left when the jobs of a name are removed.
abbrev pub without : Text → List Job → List Job
without name jobs = keep_if (λ job. not (equal job.name name)) jobs

pub find_job_in-without :
    (name other : Text) (jobs : List Job)
    → find_job_in other (without name jobs)
      ≡ (if equal name other then none else find_job_in other jobs)
find_job_in-without name other [] = ground arith
find_job_in-without name other (j ∷ jobs) = ground (
  arith,
  equal_iff j.name name,
  equal_iff j.name other,
  equal_iff name other,
  find_job_in-without name other jobs,
)
