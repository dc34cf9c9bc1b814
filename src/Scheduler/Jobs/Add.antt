-- ===== src/Scheduler/Jobs/Add.antt =====
-- scheduler.cpp, `add_job`: what it does, and when.
use agent_pulse.Base.{
  Bool-cases, Option-cases, ℤ, Text, lit, is_empty, ◌≡◌, refl, sym, ◌∙◌, ◌≢◌, inl, inr, true, false,
  ◌⊎◌, Dict, insert, Option, none, some, [], ◌∷◌, ◌++◌,
}
use agent_pulse.Cron.{CronSchedule, Tm}
use agent_pulse.Cron.Search.{next_after}
use agent_pulse.Config.{Job}
use agent_pulse.Db.{upsert_row, stored_def, upsert_job_def}
use agent_pulse.Scheduler.{Scheduler, find_job_in, find_job, publish_status}
use agent_pulse.Scheduler.Jobs.{def_from_job, set_next_run, store_job, add_job}
use agent_pulse.Scheduler.Jobs.Names.{ui_job}

-- Each message of an error begins with some byte.
message-ne-nil :
    (lit "job name is required" ≢ [])
    × (lit "job command is required" ≢ [])
    × ((t u : Text) → lit "a job named '" ++ t ++ u ≢ [])
    × ((t : Text) → lit "could not persist job: " ++ t ≢ [])
unfolding lit
message-ne-nil = (λ e. cc, λ e. cc, λ t u e. cc, λ t e. cc)

is_empty-ne : (t : Text) → is_empty t ≡ false → t ≢ []
is_empty-ne [] e = cc
is_empty-ne (c ∷ t) e = λ h. cc

pub some-ne-none {ℓ} : {A : Type ℓ} {a : A} → some a ≡ none → ⊥
some-ne-none h = cc

is_empty-nil : (t : Text) → is_empty t ≡ true → t ≡ []
is_empty-nil [] e = refl
is_empty-nil (c ∷ t) e = cc

module _ (localtime : ℤ → Tm) where
  -- The next runs after those of before: the job has one more, the next time of its schedule, or
  -- there is no such time and they are the same.
  abbrev pub Planned : ℤ → Job → Dict ℤ → Dict ℤ → Type 0
  Planned now job before after =
      ((schedule : CronSchedule) × (next : ℤ) × (job.schedule ≡ some schedule)
        × (next_after localtime schedule now ≡ some next)
        × (after ≡ insert job.name next before))
      ⊎ (((schedule : CronSchedule)
            → job.schedule ≡ some schedule
            → next_after localtime schedule now ≡ none)
          × (after ≡ before))

  set_next_run-Planned :
      (now : ℤ) (job : Job) (before : Dict ℤ)
      → Planned now job before (set_next_run localtime now job before)
  unfolding set_next_run
  set_next_run-Planned now job before = elim (Option-cases job.schedule) [
    | inl e ↦ simp (set_next_run, e) (inr (λ schedule h. absurd (cc h), refl))
    | inr (schedule, e) ↦ elim (Option-cases (next_after localtime schedule now)) [
      | inl f ↦ simp (set_next_run, e, f) (inr (λ other h. cc (f, h), refl))
      | inr (next, f) ↦ simp (set_next_run, e, f) (inl (schedule, next, refl, f, refl))
    ]
  ]

module _ {D : Type 0} (localtime : ℤ → Tm) where
  -- The job can be added.
  abbrev pub Addable : Option Text → Job → Scheduler D → Type 0
  Addable fault job s =
      (job.name ≢ []) × (job.command ≢ []) × (find_job_in job.name s.jobs ≡ none) × (fault ≡ none)

  -- The ends of `add_job`: an error with the scheduler as it was, or the empty message with the job
  -- stored, under source `ui`, behind the others and in the table of definitions.
  pub data Added (fault : Option Text) (now : ℤ) (job : Job) (s : Scheduler D)
      : Scheduler D × Text → Type 0 where
    refused :
        {message : Text} → message ≢ [] → ¬ Addable fault job s → Added fault now job s (s, message)
    accepted :
        {t : Scheduler D}
        → Addable fault job s
        → t.jobs ≡ s.jobs ++ ui_job job ∷ []
        → t.db.job_defs ≡ upsert_row (stored_def (def_from_job job)) s.db.job_defs
        → Planned localtime now (ui_job job) s.next_run t.next_run
        → t.queue ≡ s.queue
        → t.running ≡ s.running
        → Added fault now job s (t, [])

  store_job-Added :
      (fault : Option Text) (now : ℤ) (job : Job) (s : Scheduler D)
      → (job.name ≢ []) × (job.command ≢ []) × (find_job_in job.name s.jobs ≡ none)
      → Added fault now job s (store_job localtime fault now (ui_job job) s)
  unfolding store_job upsert_job_def publish_status
  store_job-Added none now job s h =
      accepted (h.0, h.1, h.2, refl) refl refl
        (set_next_run-Planned localtime now (ui_job job) s.next_run) refl refl
  store_job-Added (some why) now job s h = refused (message-ne-nil.3 why) λ a. some-ne-none a.3

  -- `add_job` succeeds exactly for a job with a command and a name that no other job has, when the
  -- database takes it: then the job stands behind the others, with source `ui`, its definition is in
  -- the table, and it has the next run that its schedule gives after now, if there is one. Otherwise there is a message, and
  -- nothing has changed.
  pub add_job-Added :
      (fault : Option Text) (now : ℤ) (job : Job) (s : Scheduler D)
      → Added fault now job s (add_job localtime fault now job s)
  unfolding add_job find_job
  add_job-Added fault now job s = elim (Bool-cases (is_empty job.name)) [
    | inl e ↦ rw e (refused message-ne-nil.0 λ a. a.0 (is_empty-nil job.name e))
    | inr named ↦ elim (Bool-cases (is_empty job.command)) [
      | inl e ↦ rw (named, e) (refused message-ne-nil.1 λ a. a.1 (is_empty-nil job.command e))
      | inr commanded ↦ elim (Option-cases (find_job_in job.name s.jobs)) [
        | inr (other, e) ↦
            rw (named, commanded, e)
              (refused (message-ne-nil.2 job.name _) λ a. some-ne-none (sym e ∙ a.2))
        | inl e ↦
            rw (named, commanded, e)
              (store_job-Added fault now job s
                (is_empty-ne job.name named, is_empty-ne job.command commanded, e))
      ]
    ]
  ]
