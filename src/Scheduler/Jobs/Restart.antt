-- ===== src/Scheduler/Jobs/Restart.antt =====
-- scheduler.cpp, the constructor: after a restart the jobs of the table are there again.
use agent_pulse.Scheduler.Jobs.Names.{ui_job, DistinctJobs-concat, find_job_in-concat}
use agent_pulse.Scheduler.Loop.Due.{DistinctJobs}
use agent_pulse.Scheduler.Jobs.Persist.{IsStorable, stored_def_lem, rebuilt}
use agent_pulse.Scheduler.Jobs.Add.{Added, refused, accepted, add_job-Added}
use agent_pulse.Base.{
  Bool-cases, Option-cases, In, ℤ, Text, equal, sort_by, ◌≡◌, sym, ap, subst, ◌∙◌, ◌⊎◌, inl, inr,
  false, Option, none, some, List, [], ◌∷◌, ◌++◌, arith,
}
use agent_pulse.Cron.{parsed, Tm}
use agent_pulse.Cron.Bounds.{>>=-eq-parsed, of_parsed}
use agent_pulse.Config.{Job}
use agent_pulse.Db.{JobDef, done, def_precedes, upsert_row, load_job_defs}
use agent_pulse.Scheduler.{Scheduler, find_job_in}
use agent_pulse.Db.Definitions.{
  DistinctDefs, upsert_row-In, upsert_row-DistinctDefs, sort_by-In, sort_by-DistinctDefs,
  UnusedDef-In,
}
use agent_pulse.Scheduler.Jobs.{schedule_of, job_from_def, def_from_job, merge_defs, add_job}

-- One step of the merge.
Merged : JobDef → List JobDef → List Job → List Job → Type 0
Merged def defs jobs all_jobs =
    ((j : Job) × (find_job_in def.name jobs ≡ some j) × (merge_defs jobs defs ≡ parsed all_jobs))
    ⊎ ((j : Job) × (find_job_in def.name jobs ≡ none)
        × (job_from_def def ≡ parsed j)
        × (merge_defs (jobs ++ j ∷ []) defs ≡ parsed all_jobs))

merge_step :
    (def : JobDef) (defs : List JobDef) (jobs all_jobs : List Job)
    → merge_defs jobs (def ∷ defs) ≡ parsed all_jobs
    → Merged def defs jobs all_jobs
unfolding merge_defs Merged
merge_step def defs jobs all_jobs e = elim (Option-cases (find_job_in def.name jobs)) [
  | inr (j, there) ↦ inl (j, there, rw (merge_defs, there) at e)
  | inl new ↦
      let (j, made, rest) =
        >>=-eq-parsed (job_from_def def) (λ j. merge_defs (jobs ++ j ∷ []) defs)
          (rw (merge_defs, new) at e) in
      inr (j, new, made, rest)
]

job_from_def-name : (def : JobDef) {j : Job} → job_from_def def ≡ parsed j → j.name ≡ def.name
unfolding job_from_def
job_from_def-name def e =
    let (schedule, p, q) = >>=-eq-parsed (schedule_of def.schedule_expr) _ e in
    sym (ap (λ j. j.name) (of_parsed q))

find_job_in-before :
    (name : Text) (job j : Job) (jobs : List Job)
    → find_job_in name jobs ≡ some job
    → find_job_in name (jobs ++ j ∷ []) ≡ some job
find_job_in-before name job j [] f = ground arith
find_job_in-before name job j (x ∷ jobs) f = elim (Bool-cases (equal x.name name)) [
  | inl same ↦ rw same (rw same at f)
  | inr other ↦ rw other (find_job_in-before name job j jobs (rw other at f))
]

find_job_in-behind :
    (name : Text) (j : Job) (jobs : List Job)
    → find_job_in name jobs ≡ none
    → equal j.name name ≡ false
    → find_job_in name (jobs ++ j ∷ []) ≡ none
find_job_in-behind name j [] f h = rw h
find_job_in-behind name j (x ∷ jobs) f h = elim (Bool-cases (equal x.name name)) [
  | inl same ↦ ground arith
  | inr other ↦ rw other (find_job_in-behind name j jobs (rw other at f) h)
]

-- What is found before the merge is found after it.
pub merge_defs-keeps :
    (name : Text) (job : Job) (defs : List JobDef) (jobs all_jobs : List Job)
    → find_job_in name jobs ≡ some job
    → merge_defs jobs defs ≡ parsed all_jobs
    → find_job_in name all_jobs ≡ some job
unfolding merge_defs Merged
merge_defs-keeps name job [] jobs all_jobs f e =
    subst (λ l. find_job_in name l ≡ some job) (of_parsed e) f
merge_defs-keeps name job (def ∷ defs) jobs all_jobs f e =
    elim (merge_step def defs jobs all_jobs e) [
      | inl (j, there, rest) ↦ merge_defs-keeps name job defs jobs all_jobs f rest
      | inr (j, new, made, rest) ↦
          merge_defs-keeps name job defs (jobs ++ j ∷ []) all_jobs
            (find_job_in-before name job j jobs f) rest
    ]

-- The merge keeps the names of the jobs pairwise different.
pub merge_defs-DistinctJobs :
    (defs : List JobDef) (jobs all_jobs : List Job)
    → merge_defs jobs defs ≡ parsed all_jobs
    → DistinctJobs jobs
    → DistinctJobs all_jobs
unfolding merge_defs Merged
merge_defs-DistinctJobs [] jobs all_jobs e d = subst DistinctJobs (of_parsed e) d
merge_defs-DistinctJobs (def ∷ defs) jobs all_jobs e d =
    elim (merge_step def defs jobs all_jobs e) [
      | inl (j, there, rest) ↦ merge_defs-DistinctJobs defs jobs all_jobs rest d
      | inr (j, new, made, rest) ↦ merge_defs-DistinctJobs defs (jobs ++ j ∷ []) all_jobs rest (
          DistinctJobs-concat jobs j d
            (subst (λ n. find_job_in n jobs ≡ none) (sym (job_from_def-name def made)) new))
    ]

merge_defs-first :
    (def : JobDef) (job : Job) (defs : List JobDef) (jobs all_jobs : List Job)
    → find_job_in def.name jobs ≡ none
    → job_from_def def ≡ parsed job
    → merge_defs (jobs ++ job ∷ []) defs ≡ parsed all_jobs
    → find_job_in def.name all_jobs ≡ some job
merge_defs-first def job defs jobs all_jobs f m rest =
    let same = job_from_def-name def m in
    let unused = subst (λ n. find_job_in n jobs ≡ none) (sym same) f in
    let there =
      subst (λ n. find_job_in n (jobs ++ job ∷ []) ≡ some job) same
        (find_job_in-concat jobs job unused) in
    merge_defs-keeps def.name job defs (jobs ++ job ∷ []) all_jobs there rest

merge_defs-adds :
    (def : JobDef) (job : Job) (defs : List JobDef) (jobs all_jobs : List Job)
    → In def defs
    → DistinctDefs defs
    → find_job_in def.name jobs ≡ none
    → job_from_def def ≡ parsed job
    → merge_defs jobs defs ≡ parsed all_jobs
    → find_job_in def.name all_jobs ≡ some job
unfolding Merged
merge_defs-adds def job [] jobs all_jobs i d f m e = absurd i
merge_defs-adds def job (x ∷ defs) jobs all_jobs (inl same) d f m e =
    elim (merge_step x defs jobs all_jobs e) [
      | inl (j, there, rest) ↦ absurd (ground (arith, same, there, f))
      | inr (j, new, made, rest) ↦
          let made' = subst (λ y. job_from_def y ≡ parsed j) (sym same) made in
          let job_same = of_parsed (sym made' ∙ m) in
          merge_defs-first def job defs jobs all_jobs f m
            (subst (λ k. merge_defs (jobs ++ k ∷ []) defs ≡ parsed all_jobs) job_same rest)
    ]
merge_defs-adds def job (x ∷ defs) jobs all_jobs (inr i) d f m e =
    elim (merge_step x defs jobs all_jobs e) [
      | inl (j, there, rest) ↦ merge_defs-adds def job defs jobs all_jobs i d.1 f m rest
      | inr (j, new, made, rest) ↦
          merge_defs-adds def job defs (jobs ++ j ∷ []) all_jobs i d.1
            (find_job_in-behind def.name j jobs f
              (rw (job_from_def-name x made) (UnusedDef-In x.name def defs d.0 i)))
            m rest
    ]

of_done : {A : Type 0} {a b : A} → done a ≡ done b → a ≡ b
of_done h = cc

module _ {D : Type 0} (localtime : ℤ → Tm) where
  Added-merged :
      {fault : Option Text} {now : ℤ} {job : Job} {s : Scheduler D} {r : Scheduler D × Text}
      → Added localtime fault now job s r
      → r.1 ≡ []
      → IsStorable job
      → DistinctDefs s.db.job_defs
      → (config all_jobs : List Job) → find_job_in job.name config ≡ none
      → merge_defs config (sort_by def_precedes r.0.db.job_defs) ≡ parsed all_jobs
      → find_job_in job.name all_jobs ≡ some (ui_job job)
  unfolding def_from_job
  Added-merged (refused ne why) done_so h d config all_jobs u e = absurd (ne done_so)
  Added-merged {job} {s} (accepted a jobs rows n q r) done_so h d config all_jobs u e =
      let def = def_from_job job in
      let rows' = rows ∙ ap (λ x. upsert_row x s.db.job_defs) (stored_def_lem job h) in
      merge_defs-adds def (ui_job job) (sort_by def_precedes (upsert_row def s.db.job_defs)) config
        all_jobs (sort_by-In def (upsert_row def s.db.job_defs) (upsert_row-In def s.db.job_defs))
        (sort_by-DistinctDefs (upsert_row def s.db.job_defs)
          (upsert_row-DistinctDefs def s.db.job_defs d))
        u (rebuilt job h.parsed_ok)
        (subst (λ t. merge_defs config (sort_by def_precedes t) ≡ parsed all_jobs) rows' e)

  -- A job that `add_job` took is there after a restart, as it was added: the jobs that the
  -- constructor merges from the configuration and the loaded definitions have it under its name. Its
  -- fields have no NUL byte, its schedule is the parsed expression, the table had one definition at
  -- most for each name, and the configuration has no job of this name.
  pub add_job-restart :
      (fault : Option Text) (now : ℤ) (job : Job) (s : Scheduler D) (defs : List JobDef)
      (config all_jobs : List Job)
      → (add_job localtime fault now job s).1 ≡ []
      → IsStorable job
      → DistinctDefs s.db.job_defs
      → load_job_defs none (add_job localtime fault now job s).0.db ≡ done defs
      → find_job_in job.name config ≡ none
      → merge_defs config defs ≡ parsed all_jobs
      → find_job_in job.name all_jobs ≡ some (ui_job job)
  unfolding load_job_defs
  add_job-restart fault now job s defs config all_jobs ok h d l u e =
      Added-merged (add_job-Added localtime fault now job s) ok h d config all_jobs u
        (subst (λ x. merge_defs config x ≡ parsed all_jobs) (sym (of_done l)) e)
