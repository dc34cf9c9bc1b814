-- ===== src/Scheduler/Worker/Retries.antt =====
-- scheduler.cpp, `worker`: how many attempts a run has, which record stays, and when it alerts.
use agent_pulse.Scheduler.Loop.{task_done}
use agent_pulse.Db.{AlertRecord, Database, insert_alert}
use agent_pulse.Base.{
  if◌then◌else◌, Bool-cases, Option-cases, ℤ, pos, pos_part, ◌+ℤ◌, ◌<ℤ◌, Text, lit, is_empty,
  lookup, Doubles, int_max, ℕ, zero, suc, ◌+◌, ◌≤◌, ◌<◌, ◌≡◌, refl, ap, subst, ◌∙◌, inl, inr, true,
  false, Option, none, some, [], ◌∷◌, ◌++◌, arith,
}
use agent_pulse.Config.{Job}
use agent_pulse.Process.{is_success, RunResult, default_result}
use agent_pulse.Scheduler.{Scheduler, or_keep, emit_alert}
use agent_pulse.Scheduler.Worker.{
  Attempts, record_of, detail_of, attempts_of, returns, failure_message, attempt_loop,
  raise_failure, run_attempts, worker,
}
use agent_pulse.Scheduler.Worker.Rounds.{
  AllFail, SucceedsAfter, the, saved, saved-notifications, saved-last_runs, loop_gives_up,
  loop_succeeds,
}

-- The alert that a failed run raises.
abbrev pub failure_notice : Job → ℤ → RunResult → Text × Text
failure_notice job attempts res =
    let message = failure_message res attempts in
    let detail = detail_of res.stderr_text in
    (lit "AgentPulse: " ++ job.name, if is_empty detail then message else message ++ b'\n' ∷ detail)

module _ {D : Type 0} where
  task_done-notifications :
      (name : Text) (s : Scheduler D) → (task_done name s).notifications ≡ s.notifications
  unfolding task_done
  task_done-notifications name s = elim (Option-cases (lookup name s.running)) [
    | inl e ↦ rw (task_done, e)
    | inr (b, e) ↦ rw (task_done, e)
  ]

  or_keep-runs :
      (fault : Option Text) (rec : AlertRecord D) (db : Database D)
      → (or_keep db (insert_alert fault rec db)).runs ≡ db.runs
  unfolding insert_alert
  or_keep-runs none rec db = refl
  or_keep-runs (some e) rec db = refl

  task_done-runs : (name : Text) (s : Scheduler D) → (task_done name s).db.runs ≡ s.db.runs
  unfolding task_done
  task_done-runs name s = elim (Option-cases (lookup name s.running)) [
    | inl e ↦ rw (task_done, e)
    | inr (b, e) ↦ rw (task_done, e)
  ]

  task_done-last_runs : (name : Text) (s : Scheduler D) → (task_done name s).last_runs ≡ s.last_runs
  unfolding task_done
  task_done-last_runs name s = elim (Option-cases (lookup name s.running)) [
    | inl e ↦ rw (task_done, e)
    | inr (b, e) ↦ rw (task_done, e)
  ]

succeeds_last :
    (w : Attempts) (n k : ℕ) → SucceedsAfter w n k → is_success (w.result (n + k)).status ≡ true
succeeds_last w n zero h =
    subst (λ m. is_success (w.result m).status ≡ true) (the (n ≡ n + 0) (omega arith)) h.1
succeeds_last w n (suc k) h =
    subst (λ m. is_success (w.result m).status ≡ true) (the (suc n + k ≡ n + suc k) (omega arith))
      (succeeds_last w (suc n) k h.1)

fails_last :
    (w : Attempts) (n k : ℕ) → AllFail w n (suc k) → is_success (w.result (n + k)).status ≡ false
fails_last w n zero h =
    subst (λ m. is_success (w.result m).status ≡ false) (the (n ≡ n + 0) (omega arith)) h.0.1
fails_last w n (suc k) h =
    subst (λ m. is_success (w.result m).status ≡ false) (the (suc n + k ≡ n + suc k) (omega arith))
      (fails_last w (suc n) k h.1)

raise_nothing :
    (doubles : Doubles) (w : Attempts) (job : Job) (attempts : ℤ) (res : RunResult)
    (s : Scheduler doubles.Double)
    → is_success res.status ≡ true
    → raise_failure doubles w job attempts res s ≡ s
unfolding raise_failure
raise_nothing doubles w job attempts res s e = elim (Bool-cases w.active_at_end) [
  | inl on ↦ rw (on, e)
  | inr off ↦ rw off
]

raise_notice :
    (doubles : Doubles) (w : Attempts) (job : Job) (attempts : ℤ) (res : RunResult)
    (s : Scheduler doubles.Double)
    → is_success res.status ≡ false
    → w.active_at_end ≡ true
    → ((raise_failure doubles w job attempts res s).notifications
        ≡ s.notifications ++ failure_notice job attempts res ∷ [])
      × ((raise_failure doubles w job attempts res s).last_runs ≡ s.last_runs)
      × ((raise_failure doubles w job attempts res s).db.runs ≡ s.db.runs)
unfolding raise_failure emit_alert
raise_notice doubles w job attempts res s e on =
    rw (on, e) (refl, refl, or_keep-runs w.alert_fault _ s.db)

attempts_of-retries :
    (job : Job) (r : ℕ) → job.retries ≡ pos r → r < int_max → attempts_of job ≡ some (pos (suc r))
unfolding attempts_of ◌+ℤ◌
attempts_of-retries job r e l = ground arith

attempts_of_negative :
    (job : Job) → job.retries <ℤ pos 0 → attempts_of job ≡ some (job.retries +ℤ pos 1)
unfolding attempts_of
attempts_of_negative job l = ground arith

no_rounds : (job : Job) → job.retries <ℤ pos 0 → pos_part (job.retries +ℤ pos 1) ≡ 0
unfolding ◌+ℤ◌
no_rounds job l = ground arith

-- A run of a job with `r` retries, fewer than the largest `int`, whose attempt `1 + k` succeeds
-- after `k` failures, where `k` is at most `r`: the run ends after `suc k` commands, the record of
-- the last is the last one of the job, and no notification is sent.
pub worker-succeeds :
    (doubles : Doubles) (w : Attempts) (job : Job) (trigger : Text) (k r : ℕ)
    (s : Scheduler doubles.Double)
    → job.retries ≡ pos r
    → r < int_max
    → k ≤ r
    → SucceedsAfter w 1 k
    → (t : Scheduler doubles.Double) × (worker doubles w job trigger s ≡ returns (suc k) t)
      × (lookup job.name t.last_runs ≡ some (record_of job trigger (w.result (1 + k))))
      × (t.notifications ≡ s.notifications)
unfolding worker run_attempts
worker-succeeds doubles w job trigger k r s e bound l h =
    let s' = saved w job trigger 1 (suc k) s in
    (
      task_done job.name s',
      rw
          (
            worker,
            attempts_of-retries job r e bound,
            loop_succeeds w job trigger 1 k (suc r) default_result s (omega arith) h,
            raise_nothing doubles w job (pos (suc r)) (w.result (1 + k)) s' (succeeds_last w 1 k h),
          )
          refl,
      rw (task_done-last_runs job.name s') (saved-last_runs w job trigger 1 k s),
      rw (task_done-notifications job.name s') (saved-notifications w job trigger 1 (suc k) s),
    )

-- A run of a job with `r` retries, fewer than the largest `int`, all of whose `suc r` attempts
-- fail: the run ends after `suc r` commands, the record of the last is the last one of the job, and
-- one notification is sent, about the last attempt; the daemon is still active at the end.
pub worker-gives_up :
    (doubles : Doubles) (w : Attempts) (job : Job) (trigger : Text) (r : ℕ)
    (s : Scheduler doubles.Double)
    → job.retries ≡ pos r
    → r < int_max
    → AllFail w 1 (suc r)
    → w.active_at_end ≡ true
    → (t : Scheduler doubles.Double) × (worker doubles w job trigger s ≡ returns (suc r) t)
      × (lookup job.name t.last_runs ≡ some (record_of job trigger (w.result (1 + r))))
      × (t.notifications
          ≡ s.notifications ++ failure_notice job (pos (suc r)) (w.result (1 + r)) ∷ [])
unfolding worker run_attempts
worker-gives_up doubles w job trigger r s e bound h on =
    let s' = saved w job trigger 1 (suc r) s in
    let res = w.result (1 + r) in
    let notice = raise_notice doubles w job (pos (suc r)) res s' (fails_last w 1 r h) on in
    let raised = raise_failure doubles w job (pos (suc r)) res s' in
    (
      task_done job.name raised,
      rw
          (
            worker,
            attempts_of-retries job r e bound,
            loop_gives_up w job trigger 1 r default_result s h,
          )
          refl,
      rw (task_done-last_runs job.name raised, notice.1) (saved-last_runs w job trigger 1 r s),
      task_done-notifications job.name raised
          ∙ notice.0
          ∙ ap (λ n. n ++ failure_notice job (pos (suc r)) res ∷ [])
              (saved-notifications w job trigger 1 (suc r) s),
    )

unspawned : is_success default_result.status ≡ false
unfolding is_success
unspawned = refl

-- With negative retries, which `add_job` takes, a run of an active daemon runs no command, adds no
-- row to the table of runs and keeps the last record of every job as it was, and yet sends one
-- notification, of a failure.
pub worker-no_attempts :
    (doubles : Doubles) (w : Attempts) (job : Job) (trigger : Text) (s : Scheduler doubles.Double)
    → job.retries <ℤ pos 0
    → w.active_at_end ≡ true
    → (t : Scheduler doubles.Double) × (worker doubles w job trigger s ≡ returns 0 t)
      × (t.last_runs ≡ s.last_runs)
      × (t.db.runs ≡ s.db.runs)
      × (t.notifications
          ≡ s.notifications ++ failure_notice job (job.retries +ℤ pos 1) default_result ∷ [])
unfolding worker run_attempts attempt_loop
worker-no_attempts doubles w job trigger s l on =
    let attempts = job.retries +ℤ pos 1 in
    let notice = raise_notice doubles w job attempts default_result s unspawned on in
    let raised = raise_failure doubles w job attempts default_result s in
    (
      task_done job.name raised,
      rw (worker, attempts_of_negative job l) (rw (no_rounds job l) refl),
      task_done-last_runs job.name raised ∙ notice.1,
      task_done-runs job.name raised ∙ notice.2,
      task_done-notifications job.name raised ∙ notice.0,
    )
