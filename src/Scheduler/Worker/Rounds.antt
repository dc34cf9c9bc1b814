-- ===== src/Scheduler/Worker/Rounds.antt =====
-- scheduler.cpp, `worker`: what the loop over the attempts of a run comes to.

use agent_pulse.Db.{RunRecord}
use agent_pulse.Base.{
  Text, equal_refl, Dict, lookup, insert, lookup-insert, ℕ, zero, suc, ◌+◌, ◌<◌, ◌≡◌, refl, ap, ◌∙◌,
  true, false, some, arith,
}
use agent_pulse.Config.{Job}
use agent_pulse.Process.{is_success, RunResult}
use agent_pulse.Scheduler.{Scheduler}
use agent_pulse.Scheduler.Worker.{Attempts, record_of, save_run, attempt_loop}

-- Attempt `n` begins, and its command fails, or succeeds.
abbrev pub Fails : Attempts → ℕ → Type 0
Fails w n = (w.active_at n ≡ true) × (is_success (w.result n).status ≡ false)

abbrev pub Succeeds : Attempts → ℕ → Type 0
Succeeds w n = (w.active_at n ≡ true) × (is_success (w.result n).status ≡ true)

-- The `k` attempts from `n` on fail.
abbrev pub AllFail : Attempts → ℕ → ℕ → Type 0
AllFail w n zero = Unit
AllFail w n (suc k) = Fails w n × AllFail w (suc n) k

-- The `k` attempts from `n` on fail, and the next one succeeds.
abbrev pub SucceedsAfter : Attempts → ℕ → ℕ → Type 0
SucceedsAfter w n zero = Succeeds w n
SucceedsAfter w n (suc k) = Fails w n × SucceedsAfter w (suc n) k

pub the : (A : Type 0) → A → A
the A a = a

insert_same : (k : Text) (v : RunRecord) (m : Dict RunRecord) → lookup k (insert k v m) ≡ some v
insert_same k v m = rw (lookup-insert k k v m, equal_refl k)

module _ {D : Type 0} where
  -- The state once the attempts from `n` on, `k` in number, are saved.
  pub saved : Attempts → Job → Text → ℕ → ℕ → Scheduler D → Scheduler D
  saved w job trigger n zero s = s
  saved w job trigger n (suc k) s =
      saved w job trigger (suc n) k
        (save_run (w.run_fault n) (record_of job trigger (w.result n)) s)

  pub saved-notifications :
      (w : Attempts) (job : Job) (trigger : Text) (n k : ℕ) (s : Scheduler D)
      → (saved w job trigger n k s).notifications ≡ s.notifications
  unfolding saved save_run
  saved-notifications w job trigger n zero s = refl
  saved-notifications w job trigger n (suc k) s =
      saved-notifications w job trigger (suc n) k
        (save_run (w.run_fault n) (record_of job trigger (w.result n)) s)

  pub saved-last_runs :
      (w : Attempts) (job : Job) (trigger : Text) (n k : ℕ) (s : Scheduler D)
      → lookup job.name (saved w job trigger n (suc k) s).last_runs
        ≡ some (record_of job trigger (w.result (n + k)))
  unfolding saved save_run record_of
  saved-last_runs w job trigger n zero s =
      insert_same job.name (record_of job trigger (w.result n)) s.last_runs
      ∙ ap (λ m. some (record_of job trigger (w.result m))) (omega arith)
  saved-last_runs w job trigger n (suc k) s =
      saved-last_runs w job trigger (suc n) k
        (save_run (w.run_fault n) (record_of job trigger (w.result n)) s)
      ∙ ap (λ m. some (record_of job trigger (w.result m))) (omega arith)

  pub loop_gives_up :
      (w : Attempts) (job : Job) (trigger : Text) (n k : ℕ) (res : RunResult) (s : Scheduler D)
      → AllFail w n (suc k)
      → attempt_loop w job trigger (suc k) n res s
        ≡ (saved w job trigger n (suc k) s, w.result (n + k), suc k)
  unfolding attempt_loop saved
  loop_gives_up w job trigger n zero res s h =
      rw (h.0.0, h.0.1)
        (ap (λ m. (saved w job trigger n 1 s, w.result m, 1)) (the (n ≡ n + 0) (omega arith)))
  loop_gives_up w job trigger n (suc k) res s h =
      rw
        (
          h.0.0,
          h.0.1,
          loop_gives_up w job trigger (suc n) k (w.result n)
              (save_run (w.run_fault n) (record_of job trigger (w.result n)) s) h.1,
        )
        (ap (λ m. (saved w job trigger n (suc (suc k)) s, w.result m, suc (suc k)))
          (the (suc n + k ≡ n + suc k) (omega arith)))

  pub loop_succeeds :
      (w : Attempts) (job : Job) (trigger : Text) (n k rounds : ℕ) (res : RunResult)
      (s : Scheduler D)
      → k < rounds
      → SucceedsAfter w n k
      → attempt_loop w job trigger rounds n res s
        ≡ (saved w job trigger n (suc k) s, w.result (n + k), suc k)
  unfolding attempt_loop saved
  loop_succeeds w job trigger n k zero res s l h = absurd (omega arith)
  loop_succeeds w job trigger n zero (suc rounds) res s l h =
      rw (h.0, h.1)
        (ap (λ m. (saved w job trigger n 1 s, w.result m, 1)) (the (n ≡ n + 0) (omega arith)))
  loop_succeeds w job trigger n (suc k) (suc rounds) res s l h =
      rw
        (
          h.0.0,
          h.0.1,
          loop_succeeds w job trigger (suc n) k rounds (w.result n)
              (save_run (w.run_fault n) (record_of job trigger (w.result n)) s) (omega arith) h.1,
        )
        (ap (λ m. (saved w job trigger n (suc (suc k)) s, w.result m, suc (suc k)))
          (the (suc n + k ≡ n + suc k) (omega arith)))
