-- ===== src/Startup/Jobs.antt =====
-- main.cpp and scheduler.cpp: the jobs that the daemon starts with.
use agent_pulse.Base.{
  Bool-cases, Option-cases, find, In, ℤ, Text, equal, Doubles, ◌≡◌, refl, sym, subst, inl, inr,
  false, Option, none, List, [], ◌∷◌, arith,
}
use agent_pulse.Cron.{Tm}
use agent_pulse.Config.{Job}
use agent_pulse.Config.Load.{
  Loaded, loaded, thrown, undefined, Ensures, then-Ensures, Yaml, Config, load_config,
}
use agent_pulse.Config.Load.Checked.{Parts, load_config-IsConfig}
use agent_pulse.Config.Load.Items.{IsJob}
use agent_pulse.Scheduler.{Scheduler}
use agent_pulse.Scheduler.Loop.Due.{Unused, DistinctJobs}
use agent_pulse.Scheduler.Missed.{Scan, candidates, scan_missed, start}
use agent_pulse.Alerts.{AlertEngine}
use agent_pulse.Scheduler.Missed.Once.{scan_jobs-jobs}
use agent_pulse.Paths.{Paths, resolve_paths}
use agent_pulse.Startup.{
  World, Daemon, Outcome, runs, exits, exits_early, scheduler_of, load_jobs, with_server,
  with_paths, start_daemon,
}
use agent_pulse.Startup.Merge.{StartsWith, construct-StartsWith, find_job_in-In}

Ensures-eq {ℓ} :
    {A : Type ℓ} {P : A → Type 0} (m : Loaded A) → ((a : A) → m ≡ loaded a → P a) → Ensures P m
Ensures-eq (loaded a) h = h a refl
Ensures-eq (thrown e) h = tt
Ensures-eq undefined h = tt

none-find :
    (name job_name : Text) (names : List Text)
    → In name names
    → find (λ n. equal n job_name) names ≡ none
    → equal name job_name ≡ false
none-find name job_name (n ∷ names) i f = elim (Bool-cases (equal n job_name)) [
  | inl same ↦ absurd (ground (arith, same, f))
  | inr other ↦ elim i [
    | inl here ↦ rw here other
    | inr there ↦ none-find name job_name names there (rw other at f)
  ]
]
none-find name job_name [] i f = absurd i

module _ (doubles : Doubles) (yaml : Yaml doubles.Double) where
  open doubles use {Double}
  open yaml use {Node}

  Parts-Unused :
      (name : Text) (names : List Text) (jobs : List Job)
      → In name names
      → Parts doubles yaml (λ (job : Job). job.name) IsJob names jobs
      → Unused name jobs
  Parts-Unused name names [] i p = tt
  Parts-Unused name names (job ∷ jobs) i (ok, new, p) =
      (none-find name job.name names i new, Parts-Unused name (job.name ∷ names) jobs (inr i) p)

  Parts-DistinctJobs :
      (names : List Text) (jobs : List Job)
      → Parts doubles yaml (λ (job : Job). job.name) IsJob names jobs
      → DistinctJobs jobs
  Parts-DistinctJobs names [] p = tt
  Parts-DistinctJobs names (job ∷ jobs) (ok, new, p) = (
    Parts-Unused job.name (job.name ∷ names) jobs (inl refl) p,
    Parts-DistinctJobs (job.name ∷ names) jobs p,
  )

  load_config-StartsWith :
      (file : Option (Loaded Node)) (cfg : Config Double)
      → load_config doubles yaml file ≡ loaded cfg
      → StartsWith cfg.jobs cfg.jobs
  load_config-StartsWith file cfg e =
      let d =
        Parts-DistinctJobs [] cfg.jobs (load_config-IsConfig doubles yaml file cfg e).jobs_ok in
      (d, λ job i. find_job_in-In job cfg.jobs d i)

  start-jobs :
      (localtime : ℤ → Tm) (wall : ℤ) (scan : Scan) (s : Scheduler Double)
      → (start doubles localtime wall scan s).jobs ≡ s.jobs
  unfolding start scan_missed
  start-jobs localtime wall scan s = elim (Bool-cases s.active) [
    | inl running ↦ rw (start, running) refl
    | inr idle ↦ rw (start, idle) (scan_jobs-jobs doubles localtime scan (candidates s.jobs) _)
  ]

  scheduler_of-StartsWith :
      (localtime : ℤ → Tm) (w : World Double Node) (jobs : List Job)
      → StartsWith jobs jobs
      → Ensures (λ s. StartsWith jobs s.jobs) (scheduler_of doubles yaml localtime w jobs)
  unfolding scheduler_of
  scheduler_of-StartsWith localtime w jobs d = elim (Option-cases w.scheduler_error) [
    | inr (e, failed) ↦ rw (scheduler_of, failed) tt
    | inl opened ↦
        rw (scheduler_of, opened)
          (construct-StartsWith localtime w.load_fault w.run_fault w.now jobs w.database w.state d)
  ]

  load_jobs-StartsWith :
      (localtime : ℤ → Tm) (w : World Double Node) (cfg : Config Double)
      → load_config doubles yaml w.file ≡ loaded cfg
      → Ensures (λ p. StartsWith cfg.jobs p.0.jobs) (load_jobs doubles yaml localtime w)
  unfolding load_jobs
  load_jobs-StartsWith localtime w cfg e =
      then-Ensures _ (λ c. c ≡ cfg) (load_config doubles yaml w.file) _
        (subst (Ensures (λ c. c ≡ cfg)) (sym e) refl)
        (λ c q.
          then-Ensures _ (λ s. StartsWith cfg.jobs s.jobs)
            (scheduler_of doubles yaml localtime w c.jobs) _
            (subst
              (λ c.
                Ensures (λ s. StartsWith cfg.jobs s.jobs)
                  (scheduler_of doubles yaml localtime w c.jobs))
              (sym q)
              (scheduler_of-StartsWith localtime w cfg.jobs (load_config-StartsWith w.file cfg e)))
            (λ s d. subst (StartsWith cfg.jobs) (sym (start-jobs localtime w.wall w.scan s)) d))

  -- The daemon that runs has such jobs.
  Runs : List Job → Outcome Double → Type 0
  Runs config (runs d) = StartsWith config d.scheduler.jobs
  Runs config (exits code) = Unit

  with_server-Runs :
      (localtime : ℤ → Tm) (config : List Job) (w : World Double Node) (paths : Paths)
      (result : Loaded (Scheduler Double × AlertEngine Double))
      → Ensures (λ p. StartsWith config p.0.jobs) result
      → Ensures (Runs config) (with_server doubles yaml localtime w paths result)
  unfolding with_server Runs
  with_server-Runs localtime config w paths (loaded p) h = h
  with_server-Runs localtime config w paths (thrown e) h = tt
  with_server-Runs localtime config w paths undefined h = tt

  with_paths-Runs :
      (localtime : ℤ → Tm) (w : World Double Node) (cfg : Config Double) (paths : Loaded Paths)
      → load_config doubles yaml w.file ≡ loaded cfg
      → Ensures (Runs cfg.jobs) (with_paths doubles yaml localtime w paths)
  unfolding with_paths Runs
  with_paths-Runs localtime w cfg (thrown e) l = tt
  with_paths-Runs localtime w cfg undefined l = tt
  with_paths-Runs localtime w cfg (loaded paths) l = elim (Option-cases w.database_error) [
    | inr (e, failed) ↦ rw (with_paths, failed) tt
    | inl opened ↦
        rw (with_paths, opened)
          (with_server-Runs localtime cfg.jobs w paths _ (load_jobs-StartsWith localtime w cfg l))
  ]

  -- The daemon that runs after its start has jobs with pairwise different names, and each job of
  -- the configuration that `load_config` gave is the job under its name, whatever the table of
  -- added jobs holds; the missed runs that the start recovers do not change the jobs.
  pub start_daemon-StartsWith :
      (localtime : ℤ → Tm) (args : List Text) (w : World Double Node) (cfg : Config Double)
      (d : Daemon Double)
      → load_config doubles yaml w.file ≡ loaded cfg
      → start_daemon doubles yaml localtime args w ≡ loaded (runs d)
      → StartsWith cfg.jobs d.scheduler.jobs
  unfolding start_daemon Runs
  start_daemon-StartsWith localtime args w cfg d l e =
      subst (Ensures (Runs cfg.jobs)) e (elim (Bool-cases (exits_early args)) [
        | inl asked ↦ rw (start_daemon, asked) tt
        | inr not_asked ↦
            rw (start_daemon, not_asked)
              (with_paths-Runs localtime w cfg (resolve_paths w.dir_error w.home) l)
      ])
