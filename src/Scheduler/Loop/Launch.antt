-- ===== src/Scheduler/Loop/Launch.antt =====
-- scheduler.cpp, `launch`: when a round of launches goes well, and when it ends the daemon.
use agent_pulse.Cron.{Tm}
use mathlib.Core.Bool.{false≢true, Bool, true, false}
use agent_pulse.Base.{
  if◌then◌else◌, Bool-cases, Option-cases, All, In, ℤ, Text, equal, equal_iff, equal_refl, Dict,
  lookup, insert, lookup-insert, ◌≡◌, refl, sym, subst, ◌∙◌, ◌↔◌, ◌⊎◌, inl, inr, Option, none, some,
  List, [], ◌∷◌, ◌++◌, arith,
}
use agent_pulse.Config.{Job}
use agent_pulse.Scheduler.{Scheduler, find_job_in, is_running_in, find_job}
use agent_pulse.Scheduler.Loop.{
  Fate, alive, terminated, split_queue, select_jobs, launch, launch_all,
}

-- No launch of the list is of this name.
abbrev pub Unlaunched : Text → List (Job × Text) → Type 0
Unlaunched name = All (λ l. equal name l.0.name ≡ false)

-- The launches are of pairwise different jobs.
abbrev pub DistinctLaunches : List (Job × Text) → Type 0
DistinctLaunches [] = Unit
DistinctLaunches (l ∷ ls) = Unlaunched l.0.name ls × DistinctLaunches ls

-- No task of these jobs is there, running or done.
abbrev pub Idle : Dict Bool → List (Job × Text) → Type 0
Idle running = All (λ l. lookup l.0.name running ≡ none)

Idle-insert :
    (name : Text) (running : Dict Bool) (ls : List (Job × Text))
    → Unlaunched name ls
    → Idle running ls
    → Idle (insert name false running) ls
Idle-insert name running [] u i = tt
Idle-insert name running (l ∷ ls) u i = (
  lookup-insert name l.0.name false running ∙ rw (u.0) (i.0),
  Idle-insert name running ls u.1 i.1,
)

Idle-of_insert :
    (name : Text) (running : Dict Bool) (ls : List (Job × Text))
    → Idle (insert name false running) ls
    → Unlaunched name ls × Idle running ls
Idle-of_insert name running [] i = (tt, tt)
Idle-of_insert name running (l ∷ ls) i =
    let (u, rest) = Idle-of_insert name running ls i.1 in
    let here = sym (lookup-insert name l.0.name false running) ∙ i.0 in
    ((differs (equal name l.0.name) _ here, u), (old (equal name l.0.name) _ here, rest))
  where
    differs : (b : Bool) (o : Option Bool) → (if b then some false else o) ≡ none → b ≡ false
    differs true o h = cc
    differs false o h = refl

    old : (b : Bool) (o : Option Bool) → (if b then some false else o) ≡ none → o ≡ none
    old true o h = cc
    old false o h = h

module _ {D : Type 0} where
  -- The state when a job has been launched.
  abbrev with_task : Text → Scheduler D → Scheduler D
  with_task name s = record s { running = insert name false s.running }

  launch_all_idle :
      (l : Job × Text) (ls : List (Job × Text)) (s : Scheduler D)
      → lookup l.0.name s.running ≡ none
      → launch_all (l ∷ ls) s ≡ launch_all ls (with_task l.0.name s)
  unfolding launch_all
  launch_all_idle (job, trigger) ls s i = rw (launch_all, launch, i)

  launch_all_busy :
      (l : Job × Text) (ls : List (Job × Text)) (s : Scheduler D) (b : Bool)
      → lookup l.0.name s.running ≡ some b
      → launch_all (l ∷ ls) s ≡ terminated
  unfolding launch_all
  launch_all_busy (job, trigger) ls s b i = rw (launch_all, launch, i)

  launch_all_total :
      (ls : List (Job × Text)) (s : Scheduler D)
      → DistinctLaunches ls
      → Idle s.running ls
      → (t : Scheduler D) × (launch_all ls s ≡ alive t)
  unfolding launch_all
  launch_all_total [] s d i = (s, refl)
  launch_all_total (l ∷ ls) s d i =
      rw (launch_all_idle l ls s i.0)
        (launch_all_total ls (with_task l.0.name s) d.1 (Idle-insert l.0.name s.running ls d.0 i.1))

  launch_all_needs :
      (ls : List (Job × Text)) (s t : Scheduler D)
      → launch_all ls s ≡ alive t
      → DistinctLaunches ls × Idle s.running ls
  unfolding launch_all
  launch_all_needs [] s t e = (tt, tt)
  launch_all_needs (l ∷ ls) s t e = elim (Option-cases (lookup l.0.name s.running)) [
    | inr (b, busy) ↦ absurd (never (sym (launch_all_busy l ls s b busy) ∙ e))
    | inl idle ↦
        let (d, i) =
          launch_all_needs ls (with_task l.0.name s) t (sym (launch_all_idle l ls s idle) ∙ e) in
        let (u, rest) = Idle-of_insert l.0.name s.running ls i in ((u, d), (idle, rest))
  ]
    where
      never : ◌≡◌ {A = Fate (Scheduler D)} terminated (alive t) → ⊥
      never h = cc

  -- The launches of a round go well exactly when they are of pairwise different jobs and no task of
  -- these jobs is left, not even one that is done; otherwise the daemon ends in `std::terminate`.
  pub launch_all_iff :
      (ls : List (Job × Text)) (s : Scheduler D)
      → ((t : Scheduler D) × (launch_all ls s ≡ alive t))
        ↔ (DistinctLaunches ls × Idle s.running ls)
  launch_all_iff ls s = (λ r. launch_all_needs ls s r.0 r.1, λ h. launch_all_total ls s h.0 h.1)

  pub launch_all-terminated :
      (ls : List (Job × Text)) (s : Scheduler D)
      → ¬ (DistinctLaunches ls × Idle s.running ls)
      → launch_all ls s ≡ terminated
  launch_all-terminated ls s h = go (launch_all ls s) refl
    where
      go : (f : Fate (Scheduler D)) → launch_all ls s ≡ f → launch_all ls s ≡ terminated
      go terminated e = e
      go (alive t) e = absurd (h (launch_all_needs ls s t e))

split_queue-cons_launch :
    (jobs : List Job) (running : Dict Bool) (name trigger : Text) (queue : List (Text × Text))
    (job : Job)
    → find_job_in name jobs ≡ some job
    → is_running_in running name ≡ false
    → (split_queue jobs running ((name, trigger) ∷ queue)).1
      ≡ (job, trigger) ∷ (split_queue jobs running queue).1
unfolding split_queue
split_queue-cons_launch jobs running name trigger queue job f r = rw (split_queue, f) (rw r)

split_queue-cons_cases :
    (jobs : List Job) (running : Dict Bool) (name trigger : Text) (queue : List (Text × Text))
    → let ls = (split_queue jobs running queue).1 in
      let ls' = (split_queue jobs running ((name, trigger) ∷ queue)).1 in
      (ls' ≡ ls) ⊎ ((job : Job) × (ls' ≡ (job, trigger) ∷ ls))
unfolding split_queue
split_queue-cons_cases jobs running name trigger queue =
    elim (Option-cases (find_job_in name jobs)) [
      | inl nothing ↦ inl (rw (split_queue, nothing))
      | inr (job, found) ↦ elim (Bool-cases (is_running_in running name)) [
        | inl busy ↦ inl (rw (split_queue, found) (rw busy))
        | inr idle ↦ inr (job, rw (split_queue, found) (rw idle))
      ]
    ]

-- A request for an idle job is launched wherever it stands in the queue.
split_queue-In :
    (jobs : List Job) (running : Dict Bool) (before after : List (Text × Text))
    (name trigger : Text) (job : Job)
    → find_job_in name jobs ≡ some job
    → is_running_in running name ≡ false
    → In (job, trigger) (split_queue jobs running (before ++ (name, trigger) ∷ after)).1
split_queue-In jobs running [] after name trigger job f r =
    rw (split_queue-cons_launch jobs running name trigger after job f r) (inl refl)
split_queue-In jobs running ((m, t) ∷ before) after name trigger job f r =
    let rest = split_queue-In jobs running before after name trigger job f r in
    elim (split_queue-cons_cases jobs running m t (before ++ (name, trigger) ∷ after)) [
      | inl same ↦ rw same rest
      | inr (other, more) ↦ rw more (inr rest)
    ]

Unlaunched-In :
    (name : Text) (ls : List (Job × Text)) (l : Job × Text)
    → Unlaunched name ls
    → In l ls
    → equal name l.0.name ≡ false
Unlaunched-In name [] l u i = absurd i
Unlaunched-In name (m ∷ ls) l u (inl e) = subst (λ x. equal name x.0.name ≡ false) (sym e) u.0
Unlaunched-In name (m ∷ ls) l u (inr i) = Unlaunched-In name ls l u.1 i

split_queue_twice :
    (jobs : List Job) (running : Dict Bool) (before mid after : List (Text × Text))
    (name t1 t2 : Text) (job : Job)
    → find_job_in name jobs ≡ some job
    → is_running_in running name ≡ false
    → ¬ DistinctLaunches
        (split_queue jobs running (before ++ (name, t1) ∷ (mid ++ (name, t2) ∷ after))).1
split_queue_twice jobs running [] mid after name t1 t2 job f r d =
    let rest = mid ++ (name, t2) ∷ after in
    let d' = subst DistinctLaunches (split_queue-cons_launch jobs running name t1 rest job f r) d in
    false≢true (
      sym (
        Unlaunched-In job.name _ (job, t2) d'.0
          (split_queue-In jobs running mid after name t2 job f r))
      ∙ equal_refl job.name)
split_queue_twice jobs running ((m, t) ∷ before) mid after name t1 t2 job f r d =
    let rest = before ++ (name, t1) ∷ (mid ++ (name, t2) ∷ after) in
    split_queue_twice jobs running before mid after name t1 t2 job f r
      (elim (split_queue-cons_cases jobs running m t rest) [
        | inl same ↦ subst DistinctLaunches same d
        | inr (other, more) ↦ (subst DistinctLaunches more d).1
      ])

Unlaunched-of_append :
    (name : Text) (ls ms : List (Job × Text)) → Unlaunched name (ls ++ ms) → Unlaunched name ls
Unlaunched-of_append name [] ms u = tt
Unlaunched-of_append name (l ∷ ls) ms u = (u.0, Unlaunched-of_append name ls ms u.1)

DistinctLaunches-of_append :
    (ls ms : List (Job × Text)) → DistinctLaunches (ls ++ ms) → DistinctLaunches ls
DistinctLaunches-of_append [] ms d = tt
DistinctLaunches-of_append (l ∷ ls) ms d =
    (Unlaunched-of_append l.0.name ls ms d.0, DistinctLaunches-of_append ls ms d.1)

-- If a round finds two requests for one job that is not running, whatever their triggers and
-- wherever they stand in the queue, it launches the job twice, and the daemon ends.
pub twice_queued-terminated :
    {D : Type 0} (localtime : ℤ → Tm) (now : ℤ) (s : Scheduler D) (name t1 t2 : Text) (job : Job)
    (before mid after : List (Text × Text))
    → s.queue ≡ before ++ (name, t1) ∷ (mid ++ (name, t2) ∷ after)
    → find_job name s ≡ some job
    → is_running_in s.running name ≡ false
    → let (selected, launches) = select_jobs localtime now s in
      launch_all launches selected ≡ terminated
unfolding select_jobs find_job
twice_queued-terminated localtime now s name t1 t2 job before mid after q f r =
    launch_all-terminated _ _ λ h.
      split_queue_twice s.jobs s.running before mid after name t1 t2 job f r (
        subst (λ x. DistinctLaunches (split_queue s.jobs s.running x).1) q
          (DistinctLaunches-of_append _ _ h.0))

Idle-In :
    (running : Dict Bool) (ls : List (Job × Text)) (l : Job × Text)
    → Idle running ls
    → In l ls
    → lookup l.0.name running ≡ none
Idle-In running [] l h i = absurd i
Idle-In running (m ∷ ls) l h (inl e) = subst (λ x. lookup x.0.name running ≡ none) (sym e) h.0
Idle-In running (m ∷ ls) l h (inr i) = Idle-In running ls l h.1 i

Idle-of_append :
    (running : Dict Bool) (ls ms : List (Job × Text)) → Idle running (ls ++ ms) → Idle running ls
Idle-of_append running [] ms h = tt
Idle-of_append running (l ∷ ls) ms h = (h.0, Idle-of_append running ls ms h.1)

find_job-name :
    (name : Text) (jobs : List Job) (job : Job) → find_job_in name jobs ≡ some job → job.name ≡ name
find_job-name name [] job e = cc
find_job-name name (j ∷ jobs) job e = elim (Bool-cases (equal j.name name)) [
  | inl hit ↦ (equal_iff job.name name).0 (ground arith)
  | inr miss ↦ find_job-name name jobs job (rw miss at e)
]

-- If a task ends between `reap_finished` and the choice of the jobs, so that it is done and its
-- thread not joined, a request for its job in the queue ends the daemon.
pub unreaped-terminated :
    {D : Type 0} (localtime : ℤ → Tm) (now : ℤ) (s : Scheduler D) (name trigger : Text) (job : Job)
    (before after : List (Text × Text))
    → s.queue ≡ before ++ (name, trigger) ∷ after
    → find_job name s ≡ some job
    → lookup name s.running ≡ some true
    → let (selected, launches) = select_jobs localtime now s in
      launch_all launches selected ≡ terminated
unfolding select_jobs find_job is_running_in
unreaped-terminated localtime now s name trigger job before after q f r =
    launch_all-terminated _ _ λ h. no_task (
      Idle-In s.running (split_queue s.jobs s.running s.queue).1 (job, trigger)
        (Idle-of_append s.running _ _ h.1)
        (subst (λ x. In (job, trigger) (split_queue s.jobs s.running x).1) (sym q)
          (split_queue-In s.jobs s.running before after name trigger job f
            (rw (is_running_in, r)))))
  where
    no_task : lookup job.name s.running ≡ none → ⊥
    no_task e =
        let same = subst (λ n. lookup n s.running ≡ none) (find_job-name name s.jobs job f) e in cc
