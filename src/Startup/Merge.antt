-- ===== src/Startup/Merge.antt =====
-- scheduler.cpp, the constructor: the jobs of the configuration stay when the stored ones are merged.
use agent_pulse.Base.{
  In, ℤ, Text, equal, equal_refl, ◌≡◌, refl, sym, subst, ◌⊎◌, inl, inr, false, Option, none, some,
  List, [], ◌∷◌,
}
use agent_pulse.Cron.{Parsed, parsed, malformed, overflow, Tm}
use agent_pulse.Config.{Job}
use agent_pulse.Config.Load.{Ensures}
use agent_pulse.Db.{JobDef, Database, DbResult, done, db_error, last_run, load_job_defs}
use agent_pulse.State.{SharedState}
use agent_pulse.Scheduler.{Scheduler, find_job_in, publish_status}
use agent_pulse.Scheduler.Loop.Due.{Unused, DistinctJobs}
use agent_pulse.Scheduler.Jobs.{merge_defs, init_jobs, blank, construct}
use agent_pulse.Scheduler.Jobs.Restart.{merge_defs-keeps, merge_defs-DistinctJobs}
use agent_pulse.Startup.{of_constructed}

-- A result of a query that succeeds satisfies the predicate.
DbEnsures : {A : Type 0} → (A → Type 0) → DbResult A → Type 0
DbEnsures P (done a) = P a
DbEnsures P (db_error e) = Unit

DbResult-cases :
    {A : Type 0} (r : DbResult A) → ((a : A) × (r ≡ done a)) ⊎ ((e : Text) × (r ≡ db_error e))
DbResult-cases (done a) = inl (a, refl)
DbResult-cases (db_error e) = inr (e, refl)

init_jobs-jobs :
    {D : Type 0} (localtime : ℤ → Tm) (fault_of : Text → Option Text) (now : ℤ) (jobs : List Job)
    (s : Scheduler D)
    → DbEnsures (λ t. t.jobs ≡ s.jobs) (init_jobs localtime fault_of now jobs s)
unfolding init_jobs DbEnsures
init_jobs-jobs localtime fault_of now [] s = refl
init_jobs-jobs localtime fault_of now (job ∷ jobs) s =
    elim (DbResult-cases (last_run (fault_of job.name) job.name s.db)) [
      | inr (e, failed) ↦ rw (init_jobs, failed) tt
      | inl (none, q) ↦ rw (init_jobs, q) (init_jobs-jobs localtime fault_of now jobs _)
      | inl (some r, q) ↦ rw (init_jobs, q) (init_jobs-jobs localtime fault_of now jobs _)
    ]

Parsed-cases :
    {A : Type 0} (r : Parsed A) → ((a : A) × (r ≡ parsed a)) ⊎ ((r ≡ malformed) ⊎ (r ≡ overflow))
Parsed-cases (parsed a) = inl (a, refl)
Parsed-cases malformed = inr (inl refl)
Parsed-cases overflow = inr (inr refl)

-- The jobs have names of their own, and those of the configuration are found among them.
abbrev pub StartsWith : List Job → List Job → Type 0
StartsWith config jobs =
    DistinctJobs jobs × ((job : Job) → In job config → find_job_in job.name jobs ≡ some job)

merge_defs-StartsWith :
    (config : List Job) (defs : List JobDef) (jobs all_jobs : List Job)
    → merge_defs jobs defs ≡ parsed all_jobs
    → StartsWith config jobs
    → StartsWith config all_jobs
merge_defs-StartsWith config defs jobs all_jobs m (d, f) = (
  merge_defs-DistinctJobs defs jobs all_jobs m d,
  λ job i. merge_defs-keeps job.name job defs jobs all_jobs (f job i) m,
)

pub construct-StartsWith :
    {D : Type 0} (localtime : ℤ → Tm) (load_fault : Option Text) (fault_of : Text → Option Text)
    (now : ℤ) (jobs : List Job) (db : Database D) (state : SharedState D)
    → StartsWith jobs jobs
    → Ensures
        (λ s. StartsWith jobs s.jobs)
        (of_constructed (construct localtime load_fault fault_of now jobs db state))
unfolding construct of_constructed DbEnsures publish_status
construct-StartsWith localtime load_fault fault_of now jobs db state d =
    elim (DbResult-cases (load_job_defs load_fault db)) [
      | inr (e, failed) ↦ rw (construct, failed) tt
      | inl (defs, q) ↦
          rw (construct, q)
            (elim (Parsed-cases (merge_defs jobs defs)) [
              | inl (all_jobs, m) ↦
                  let s = blank all_jobs db state in
                  rw m (elim (DbResult-cases (init_jobs localtime fault_of now all_jobs s)) [
                    | inr (e, failed) ↦ rw failed tt
                    | inl (t, i) ↦ rw i (
                        subst (λ l. StartsWith jobs l)
                          (sym (
                            subst (DbEnsures (λ t. t.jobs ≡ all_jobs)) i
                              (init_jobs-jobs localtime fault_of now all_jobs s)))
                          (merge_defs-StartsWith jobs defs jobs all_jobs m d))
                  ])
              | inr (inl m) ↦ rw m tt
              | inr (inr m) ↦ rw m tt
            ])
    ]

Unused-In :
    (name : Text) (job : Job) (jobs : List Job)
    → Unused name jobs
    → In job jobs
    → equal name job.name ≡ false
Unused-In name job [] u i = absurd i
Unused-In name job (j ∷ jobs) u (inl here) = rw here u.0
Unused-In name job (j ∷ jobs) u (inr there) = Unused-In name job jobs u.1 there

-- Each job is the one that is found under its name.
pub find_job_in-In :
    (job : Job) (jobs : List Job)
    → DistinctJobs jobs
    → In job jobs
    → find_job_in job.name jobs ≡ some job
find_job_in-In job [] d i = absurd i
find_job_in-In job (j ∷ jobs) d (inl here) = rw here (rw (equal_refl j.name) refl)
find_job_in-In job (j ∷ jobs) d (inr there) =
    rw (Unused-In j.name job jobs d.0 there) (find_job_in-In job jobs d.1 there)
