-- ===== src/Ipc/Api/Control.antt =====
-- main.cpp and api.cpp: the handlers that the daemon gives to the API are the scheduler's.
use agent_pulse.Ipc.Api.Request.{parse_request}
use agent_pulse.Ipc.Json.{Json, JsonLibrary}
use agent_pulse.Base.{
  ℤ, Text, lit, ◌≡◌, refl, subst, Option-cases, inl, inr, ◌≢◌, Bool, true, false, Option, none,
  some, [],
}
use agent_pulse.Cron.{Parsed, parsed, malformed, overflow, Tm}
use agent_pulse.Scheduler.Loop.{Fate, alive, terminated}
use agent_pulse.Config.{Job}
use agent_pulse.Scheduler.{Scheduler, find_job, enqueue, request_run}
use agent_pulse.Scheduler.Jobs.{add_job, remove_job}
use agent_pulse.Scheduler.Jobs.Add.{Added, refused, accepted, add_job-Added}
use agent_pulse.Scheduler.Jobs.Remove.{Removed, kept, gone, remove_job-Removed}
use agent_pulse.Ipc.Api.{Api, Query, respond, handle}
use agent_pulse.Ipc.Api.Outcomes.{IsControl, Replied, Responded, respond-Responded}

the_handler : {A : Type 0} {f g : A} → some f ≡ some g → f ≡ g
the_handler e = cc

module _ {D : Type 0} (localtime : ℤ → Tm) (started_at now : ℤ) (fault : Option Text) where
  -- The API of the daemon, with the clock and the error of SQLite during one request. Both
  -- connections read one database.
  abbrev pub daemon_api : Api D (Scheduler D)
  daemon_api = record {
    started_at = started_at;
    state = λ s. s.state;
    db = λ s. some s.db;
    run_handler = some request_run;
    add_job_handler = some (add_job localtime fault now);
    remove_job_handler = some (remove_job fault);
  }

  add_keeps :
      (job : Job) (s : Scheduler D) (r : Scheduler D × Text)
      → Added localtime fault now job s r
      → r.1 ≢ []
      → r.0 ≡ s
  add_keeps job s r (refused m n) h = refl
  add_keeps job s r (accepted a b c d e f) h = absurd (h refl)

  remove_keeps :
      (name : Text) (s : Scheduler D) (r : Scheduler D × Text)
      → Removed fault name s r
      → r.1 ≢ []
      → r.0 ≡ s
  remove_keeps name s r (kept m n) h = refl
  remove_keeps name s r (gone a b c d e f g i) h = absurd (h refl)

  run_keeps :
      (name : Text) (s : Scheduler D) → (request_run name s).1 ≡ false → (request_run name s).0 ≡ s
  unfolding request_run
  run_keeps name s = go (find_job name s)
    where
      go :
          (o : Option Job)
          → (elim o as (λ x. Scheduler D × Bool) [
            | none ↦ (s, false)
            | some job ↦ (enqueue name (lit "manual") s, true)
          ]).1
            ≡ false
          → (elim o as (λ x. Scheduler D × Bool) [
            | none ↦ (s, false)
            | some job ↦ (enqueue name (lit "manual") s, true)
          ]).0
            ≡ s
      go none e = refl
      go (some job) e = cc

  daemon_api-IsControl : IsControl daemon_api
  daemon_api-IsControl = record {
    add_refused = λ h job s e.
        subst (λ g. (g job s).1 ≢ [] → (g job s).0 ≡ s) (the_handler e)
          (add_keeps job s (add_job localtime fault now job s)
            (add_job-Added localtime fault now job s));
    remove_refused = λ h name s e.
        subst (λ g. (g name s).1 ≢ [] → (g name s).0 ≡ s) (the_handler e)
          (remove_keeps name s (remove_job fault name s) (remove_job-Removed fault name s));
    run_refused = λ h name s e.
        subst (λ g. (g name s).1 ≡ false → (g name s).0 ≡ s) (the_handler e) (run_keeps name s);
  }

  responds :
      (library : JsonLibrary D) (query : Query) (line : Text) (s : Scheduler D)
      → Responded (parse_request library line).cmd s (respond library daemon_api query line s)
  responds library = respond-Responded library daemon_api daemon_api-IsControl

  -- What a request line comes to, with what `dump` makes of the response.
  abbrev pub Handled :
      JsonLibrary D → Text → Scheduler D → Parsed (Fate (Scheduler D × Text)) → Type 0
  Handled library cmd s (parsed (alive (t, out))) =
      (response : Json D) × Replied cmd s (t, response) × (library.dump response ≡ some out)
  Handled library cmd s (parsed terminated) =
      (t : Scheduler D) × (response : Json D) × Replied cmd s (t, response)
      × (library.dump response ≡ none)
  Handled library cmd s malformed = ⊥
  Handled library cmd s overflow = cmd ≡ lit "add_job"

  -- A request line comes to one of three ends in the daemon. It is answered by a text that `dump`
  -- makes of a response; or `dump` throws on the response, which ends the daemon; or the cron parser
  -- overflows, in an `add_job` only. In the first two, the response is an object whose `ok` is true,
  -- or is false and comes with the text of an error and with the scheduler as it was; and no command
  -- but `add_job`, `remove_job` and `run` changes the scheduler.
  pub daemon_api-Handled :
      (library : JsonLibrary D) (query : Query) (line : Text) (s : Scheduler D)
      → Handled library (parse_request library line).cmd s (handle library daemon_api query line s)
  unfolding handle
  daemon_api-Handled library query line s =
      go (respond library daemon_api query line s) (responds library query line s)
    where
      go :
          (r : Parsed (Scheduler D × Json D))
          → Responded (parse_request library line).cmd s r
          → Handled library (parse_request library line).cmd s (elim r [
            | overflow ↦ overflow
            | malformed ↦ malformed
            | parsed (s', response) ↦ elim (library.dump response) [
              | none ↦ parsed terminated
              | some out ↦ parsed (alive (s', out))
            ]
          ])
      go overflow h = h
      go malformed h = h
      go (parsed (t, response)) h = elim (Option-cases (library.dump response)) [
        | inl e ↦ rw e (t, response, h, e)
        | inr (out, e) ↦ rw e (response, h, e)
      ]
