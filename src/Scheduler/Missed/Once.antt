-- ===== src/Scheduler/Missed/Once.antt =====
-- scheduler.cpp, `scan_missed`: each missed occurrence is queued once.
use agent_pulse.Base.{
  value_or, Bool-cases, Option-cases, All, ℤ, pos, ◌≤ℤ◌, ◌<ℤ◌, leb_ℤ, Text, equal, equal_iff,
  equal_refl, Dict, lookup, insert, lookup-insert, Doubles, ◌≡◌, refl, sym, subst, ◌∙◌, inl, inr,
  none, some, List, [], ◌∷◌, arith,
}
use agent_pulse.Cron.{Tm}
use agent_pulse.Config.{Job}
use agent_pulse.Scheduler.{Scheduler, enqueue, emit_alert}
use agent_pulse.Scheduler.Missed.{
  Scan, candidates, last_run_ts, missed_of, recover_missed, scan_job, scan_jobs, scan_missed,
}

module _ (doubles : Doubles) (localtime : ℤ → Tm) where
  open doubles use {Double}

  abbrev handled_at : Text → Scheduler Double → ℤ
  handled_at name s = value_or (lookup name s.missed_handled) (pos 0)

  -- What is missed of the job at this time is handled already.
  abbrev pub IsSettled : ℤ → Scheduler Double → Job → Type 0
  IsSettled now s job =
      (m : ℤ) → missed_of localtime now s job ≡ some m → m ≤ℤ handled_at job.name s

  -- The cases of `scan_job`.
  data Scanned (scan : Scan) (job : Job) (s t : Scheduler Double) : Type 0 where
    nothing : missed_of localtime scan.now s job ≡ none → t ≡ s → Scanned scan job s t
    old :
        (m : ℤ)
        → missed_of localtime scan.now s job ≡ some m
        → m ≤ℤ handled_at job.name s
        → t ≡ record s { missed_handled = insert job.name (handled_at job.name s) s.missed_handled }
        → Scanned scan job s t
    fresh :
        (m : ℤ)
        → missed_of localtime scan.now s job ≡ some m
        → handled_at job.name s <ℤ m
        → t ≡ recover_missed doubles scan job m s
        → Scanned scan job s t

  scan_job-Scanned :
      (scan : Scan) (job : Job) (s : Scheduler Double)
      → Scanned scan job s (scan_job doubles localtime scan job s)
  unfolding scan_job
  scan_job-Scanned scan job s = elim (Option-cases (missed_of localtime scan.now s job)) [
    | inl e ↦ nothing e (rw (scan_job, e))
    | inr (m, e) ↦ elim (Bool-cases (leb_ℤ m (handled_at job.name s))) [
      | inl le ↦ old m e (ground arith) (rw (scan_job, e) (rw le))
      | inr gt ↦ fresh m e (ground arith) (rw (scan_job, e) (rw gt))
    ]
  ]

  recover-last_runs :
      (scan : Scan) (job : Job) (m : ℤ) (s : Scheduler Double)
      → (recover_missed doubles scan job m s).last_runs ≡ s.last_runs
  unfolding recover_missed emit_alert enqueue
  recover-last_runs scan job m s = refl

  recover-missed_handled :
      (scan : Scan) (job : Job) (m : ℤ) (s : Scheduler Double)
      → (recover_missed doubles scan job m s).missed_handled ≡ insert job.name m s.missed_handled
  unfolding recover_missed emit_alert enqueue
  recover-missed_handled scan job m s = refl

  Scanned-last_runs :
      {scan : Scan} {job : Job} {s t : Scheduler Double}
      → Scanned scan job s t
      → t.last_runs ≡ s.last_runs
  Scanned-last_runs (nothing e r) = rw r
  Scanned-last_runs (old m e le r) = rw r
  Scanned-last_runs {scan} {job} {s} (fresh m e lt r) = rw r (recover-last_runs scan job m s)

  missed_of-last_runs :
      (now : ℤ) (job : Job) (s t : Scheduler Double)
      → t.last_runs ≡ s.last_runs
      → missed_of localtime now t job ≡ missed_of localtime now s job
  unfolding missed_of last_run_ts
  missed_of-last_runs now job s t e = ground arith

  handled-insert :
      (key name : Text) (m : ℤ) (s : Scheduler Double)
      → handled_at key s ≤ℤ m
      → handled_at name s ≤ℤ value_or (lookup name (insert key m s.missed_handled)) (pos 0)
  handled-insert key name m s h =
      rw (lookup-insert key name m s.missed_handled) (elim (Bool-cases (equal key name)) [
        | inl same ↦ rw same (subst (λ k. handled_at k s ≤ℤ m) ((equal_iff key name).0 same) h)
        | inr other ↦ rw other (omega arith)
      ])

  Scanned-handled :
      {scan : Scan} {job : Job} {s t : Scheduler Double} (name : Text)
      → Scanned scan job s t
      → handled_at name s ≤ℤ handled_at name t
  Scanned-handled name (nothing e r) = rw r (omega arith)
  Scanned-handled {job} {s} name (old m e le r) =
      rw r (handled-insert job.name name (handled_at job.name s) s (omega arith))
  Scanned-handled {scan} {job} {s} name (fresh m e lt r) =
      rw (r, recover-missed_handled scan job m s) (handled-insert job.name name m s (omega arith))

  Scanned-IsSettled :
      {scan : Scan} {job : Job} {s t : Scheduler Double} (other : Job)
      → Scanned scan job s t
      → IsSettled scan.now s other
      → IsSettled scan.now t other
  Scanned-IsSettled {scan} {job} {s} {t} other r settled m e =
      let bound =
        settled m (sym (missed_of-last_runs scan.now other s t (Scanned-last_runs r)) ∙ e) in
      omega (arith, bound, Scanned-handled other.name r)

  lookup-insert_self :
      (name : Text) (m : ℤ) (d : Dict ℤ) → value_or (lookup name (insert name m d)) (pos 0) ≡ m
  lookup-insert_self name m d = rw (lookup-insert name name m d) (rw (equal_refl name))

  Scanned-settles :
      {scan : Scan} {job : Job} {s t : Scheduler Double}
      → Scanned scan job s t
      → IsSettled scan.now t job
  Scanned-settles {scan} {job} {s} {t} c n f = settle c
    where
      before : Scanned scan job s t → missed_of localtime scan.now s job ≡ some n
      before d = sym (missed_of-last_runs scan.now job s t (Scanned-last_runs d)) ∙ f

      settle : Scanned scan job s t → n ≤ℤ handled_at job.name t
      settle (nothing e r) = let g = before (nothing e r) in cc
      settle (old m e le r) =
          let same : m ≡ n = (let g = before (old m e le r) in cc) in
          rw r (
            rw (lookup-insert_self job.name (handled_at job.name s) s.missed_handled)
              (subst (λ k. k ≤ℤ handled_at job.name s) same le))
      settle (fresh m e lt r) =
          let same : m ≡ n = (let g = before (fresh m e lt r) in cc) in
          rw (r, recover-missed_handled scan job m s)
            (rw (lookup-insert_self job.name m s.missed_handled) (rw same (omega arith)))

  -- What a scan shows to others: the queue, the alerts and the notifications.
  abbrev pub Shown : Scheduler Double → Scheduler Double → Type 0
  Shown t s =
      (t.queue ≡ s.queue)
      × (t.state ≡ s.state)
      × (t.db ≡ s.db)
      × (t.notifications ≡ s.notifications)

  Scanned-settled :
      {scan : Scan} {job : Job} {s t : Scheduler Double}
      → Scanned scan job s t
      → IsSettled scan.now s job
      → Shown t s
  Scanned-settled (nothing e r) h = rw r (refl, refl, refl, refl)
  Scanned-settled (old m e le r) h = rw r (refl, refl, refl, refl)
  Scanned-settled (fresh m e lt r) h = absurd (omega (arith, h m e))

  scan_jobs-IsSettled :
      (scan : Scan) (jobs : List Job) (s : Scheduler Double) (other : Job)
      → IsSettled scan.now s other
      → IsSettled scan.now (scan_jobs doubles localtime scan jobs s) other
  unfolding scan_jobs
  scan_jobs-IsSettled scan [] s other h = h
  scan_jobs-IsSettled scan (job ∷ jobs) s other h =
      scan_jobs-IsSettled scan jobs (scan_job doubles localtime scan job s) other
        (Scanned-IsSettled other (scan_job-Scanned scan job s) h)

  scan_jobs-settles :
      (scan : Scan) (jobs : List Job) (s : Scheduler Double)
      → All (IsSettled scan.now (scan_jobs doubles localtime scan jobs s)) jobs
  unfolding scan_jobs
  scan_jobs-settles scan [] s = tt
  scan_jobs-settles scan (job ∷ jobs) s =
      let t = scan_job doubles localtime scan job s in
      (
        scan_jobs-IsSettled scan jobs t job (Scanned-settles (scan_job-Scanned scan job s)),
        scan_jobs-settles scan jobs t,
      )

  All-Scanned :
      (scan : Scan) (job : Job) (s : Scheduler Double) (jobs : List Job)
      → All (IsSettled scan.now s) jobs
      → All (IsSettled scan.now (scan_job doubles localtime scan job s)) jobs
  All-Scanned scan job s [] h = tt
  All-Scanned scan job s (other ∷ jobs) h =
      (Scanned-IsSettled other (scan_job-Scanned scan job s) h.0, All-Scanned scan job s jobs h.1)

  scan_jobs_settled :
      (scan : Scan) (jobs : List Job) (s : Scheduler Double)
      → All (IsSettled scan.now s) jobs
      → Shown (scan_jobs doubles localtime scan jobs s) s
  unfolding scan_jobs
  scan_jobs_settled scan [] s h = (refl, refl, refl, refl)
  scan_jobs_settled scan (job ∷ jobs) s h =
      let t = scan_job doubles localtime scan job s in
      let (a, b, c, d) = Scanned-settled (scan_job-Scanned scan job s) h.0 in
      let (a', b', c', d') = scan_jobs_settled scan jobs t (All-Scanned scan job s jobs h.1) in
      (a' ∙ a, b' ∙ b, c' ∙ c, d' ∙ d)

  recover-jobs :
      (scan : Scan) (job : Job) (m : ℤ) (s : Scheduler Double)
      → (recover_missed doubles scan job m s).jobs ≡ s.jobs
  unfolding recover_missed emit_alert enqueue
  recover-jobs scan job m s = refl

  Scanned-jobs :
      {scan : Scan} {job : Job} {s t : Scheduler Double} → Scanned scan job s t → t.jobs ≡ s.jobs
  Scanned-jobs (nothing e r) = rw r
  Scanned-jobs (old m e le r) = rw r
  Scanned-jobs {scan} {job} {s} (fresh m e lt r) = rw r (recover-jobs scan job m s)

  pub scan_jobs-jobs :
      (scan : Scan) (jobs : List Job) (s : Scheduler Double)
      → (scan_jobs doubles localtime scan jobs s).jobs ≡ s.jobs
  unfolding scan_jobs
  scan_jobs-jobs scan [] s = refl
  scan_jobs-jobs scan (job ∷ jobs) s =
      scan_jobs-jobs scan jobs (scan_job doubles localtime scan job s)
      ∙ Scanned-jobs (scan_job-Scanned scan job s)

  -- A second scan at the same time, with no run in between, queues nothing, raises no alert and
  -- sends no notification: the queue, the shared state, the database and the notifications stay.
  pub scan_missed_twice :
      (scan again : Scan) (s : Scheduler Double)
      → again.now ≡ scan.now
      → let once = scan_missed doubles localtime scan s in
        Shown (scan_missed doubles localtime again once) once
  unfolding scan_missed
  scan_missed_twice scan again s e =
      let jobs = candidates s.jobs in
      let once = scan_jobs doubles localtime scan jobs s in
      scan_jobs_settled again (candidates once.jobs) once (
        subst (λ l. All (IsSettled again.now once) (candidates l))
          (sym (scan_jobs-jobs scan jobs s))
          (subst (λ n. All (IsSettled n once) jobs) (sym e) (scan_jobs-settles scan jobs s)))
