-- ===== src/Ipc/Api/Outcomes.antt =====
-- api.cpp, `handle`: what every response says, and when the state may have changed.
use agent_pulse.Db.{RunRecord, Database, DbResult, done, db_error}
use agent_pulse.Base.{
  if◌then◌else◌, In, ℤ, Text, lit, equal, is_empty, equal_iff, equal_refl, ◌≡◌, refl, ◌≢◌, ◌⊎◌, inl,
  inr, Bool, true, false, ◌||◌, Option, none, some, List, [], ◌∷◌,
}
use agent_pulse.Cron.{Parsed, parsed, malformed, overflow, CronSchedule, parse}
use agent_pulse.Config.{Job}
use agent_pulse.Ipc.Json.{Json, boolean, text, object, Fields, field, JsonLibrary, field_of}
use agent_pulse.Ipc.Api.Request.{ApiRequest, parse_request, job_of_body}
use agent_pulse.Ipc.Api.Values.{refusal}
use agent_pulse.Ipc.Api.{
  Api, Query, history_reply, history_request, runs_reply, runs_request, job_reply, add_scheduled,
  add_body, remove_job_request, run_reply, run_request, status_reply, add_job_request, respond,
}

when :
    {A : Type 0} {a b : A} (P : A → Type 0) (c : Bool)
    → (c ≡ true → P a)
    → P b
    → P (if c then a else b)
when P true p q = p refl
when P false p q = q

if_both : {A : Type 0} {a b : A} (P : A → Type 0) (c : Bool) → P a → P b → P (if c then a else b)
if_both P true p q = p
if_both P false p q = q

-- The command is one of those that act on the scheduler.
abbrev pub Controls : Text → Type 0
Controls cmd = In cmd (lit "add_job" ∷ lit "remove_job" ∷ lit "run" ∷ [])

module _ {D : Type 0} where
  says_ok : (v : Json D) (rest : Fields D) → field_of (lit "ok") (field (lit "ok") v rest) ≡ some v
  unfolding field_of
  says_ok v rest = rw (equal_refl (lit "ok")) refl

  says_error :
      (v w : Json D) (rest : Fields D)
      → field_of (lit "error") (field (lit "ok") v (field (lit "error") w rest)) ≡ some w
  unfolding field_of lit equal
  says_error v w rest = refl

module _ {D S : Type 0} where
  -- A handler that reports an error has changed nothing.
  pub record IsControl (api : Api D S) : Type 0 where
    pub add_refused :
        (h : Job → S → S × Text) (job : Job) (s : S)
        → api.add_job_handler ≡ some h
        → (h job s).1 ≢ []
        → (h job s).0 ≡ s
    pub remove_refused :
        (h : Text → S → S × Text) (name : Text) (s : S)
        → api.remove_job_handler ≡ some h
        → (h name s).1 ≢ []
        → (h name s).0 ≡ s
    pub run_refused :
        (h : Text → S → S × Bool) (name : Text) (s : S)
        → api.run_handler ≡ some h
        → (h name s).1 ≡ false
        → (h name s).0 ≡ s

  -- A response of the protocol to a command in state `s`: an object with `ok`; if it is false, with
  -- the text of an error, and then nothing has changed. Only three commands change the state.
  pub data Replied (cmd : Text) (s : S) : S × Json D → Type 0 where
    agreed :
        {fields : Fields D} {t : S}
        → field_of (lit "ok") fields ≡ some (boolean true)
        → (t ≡ s) ⊎ Controls cmd
        → Replied cmd s (t, object fields)
    refused :
        {fields : Fields D} {t : S} {why : Text}
        → field_of (lit "ok") fields ≡ some (boolean false)
        → field_of (lit "error") fields ≡ some (text why)
        → t ≡ s
        → Replied cmd s (t, object fields)

  -- There is a response, unless the cron parser overflows in `add_job`.
  abbrev pub Responded : Text → S → Parsed (S × Json D) → Type 0
  Responded cmd s (parsed r) = Replied cmd s r
  Responded cmd s malformed = ⊥
  Responded cmd s overflow = cmd ≡ lit "add_job"

  refuses :
      (cmd why : Text) (s t : S) {rest : Fields D}
      → t ≡ s
      → Replied cmd s
          (t, object (field (lit "ok") (boolean false) (field (lit "error") (text why) rest)))
  refuses cmd why s t e =
      refused (says_ok (boolean false) _) (says_error (boolean false) (text why) _) e

  no_change : (cmd : Text) (s : S) (why : Text) → Replied cmd s (s, refusal why)
  unfolding refusal
  no_change cmd s why = refuses cmd why s s refl

  -- `ok` with the state as it was.
  read_only :
      (cmd : Text) (s : S) {rest : Fields D}
      → Replied cmd s (s, object (field (lit "ok") (boolean true) rest))
  read_only cmd s = agreed (says_ok (boolean true) _) (inl refl)

  history_reply-Replied :
      (cmd metric : Text) (s : S) (rows : DbResult (List (ℤ × D)))
      → Replied cmd s (s, history_reply metric rows)
  unfolding history_reply
  history_reply-Replied cmd metric s (db_error e) = no_change cmd s e
  history_reply-Replied cmd metric s (done rows) = read_only cmd s

  history-Replied :
      (cmd : Text) (s : S) (query : Query) (req : ApiRequest) (db : Option (Database D))
      → Replied cmd s (s, history_request query req db)
  unfolding history_request
  history-Replied cmd s query req none = no_change cmd s _
  history-Replied cmd s query req (some db) =
      if_both (λ j. Replied cmd s (s, j)) (is_empty req.arg) (no_change cmd s _)
        (history_reply-Replied cmd req.arg s _)

  runs_reply-Replied :
      (cmd job : Text) (s : S) (rows : DbResult (List RunRecord))
      → Replied cmd s (s, runs_reply job rows)
  unfolding runs_reply
  runs_reply-Replied cmd job s (db_error e) = no_change cmd s e
  runs_reply-Replied cmd job s (done rows) = read_only cmd s

  runs-Replied :
      (cmd : Text) (s : S) (query : Query) (req : ApiRequest) (db : Option (Database D))
      → Replied cmd s (s, runs_request query req db)
  unfolding runs_request
  runs-Replied cmd s query req none = no_change cmd s _
  runs-Replied cmd s query req (some db) =
      if_both (λ j. Replied cmd s (s, j)) (is_empty req.arg) (no_change cmd s _)
        (runs_reply-Replied cmd req.arg s _)

  job_reply-Replied :
      (cmd shown name : Text) (s : S) (r : S × Text)
      → Controls cmd
      → (r.1 ≢ [] → r.0 ≡ s)
      → Replied cmd s (job_reply shown name r)
  unfolding job_reply refusal
  job_reply-Replied cmd shown name s (t, []) c h = agreed (says_ok (boolean true) _) (inr c)
  job_reply-Replied cmd shown name s (t, x ∷ err) c h = refuses cmd (x ∷ err) s t (h λ e. cc)

  run_reply-Replied :
      (cmd job : Text) (s : S) (r : S × Bool)
      → Controls cmd
      → (r.1 ≡ false → r.0 ≡ s)
      → Replied cmd s (run_reply job r)
  unfolding run_reply
  run_reply-Replied cmd job s (t, true) c h = agreed (says_ok (boolean true) _) (inr c)
  run_reply-Replied cmd job s (t, false) c h = refuses cmd (lit "no such job") s t (h refl)

  run_request-Replied :
      (cmd : Text) (s : S) (req : ApiRequest) (handler : Option (Text → S → S × Bool))
      → Controls cmd
      → ((h : Text → S → S × Bool)
          → handler ≡ some h
          → (h req.arg s).1 ≡ false
          → (h req.arg s).0 ≡ s)
      → Replied cmd s (run_request handler req s)
  unfolding run_request
  run_request-Replied cmd s req none c h = no_change cmd s _
  run_request-Replied cmd s req (some handler) c h =
      if_both (Replied cmd s) (is_empty req.arg) (no_change cmd s _)
        (run_reply-Replied cmd req.arg s (handler req.arg s) c (h handler refl))

  remove_job_request-Replied :
      (cmd : Text) (s : S) (req : ApiRequest) (handler : Option (Text → S → S × Text))
      → Controls cmd
      → ((h : Text → S → S × Text) → handler ≡ some h → (h req.arg s).1 ≢ [] → (h req.arg s).0 ≡ s)
      → Replied cmd s (remove_job_request handler req s)
  unfolding remove_job_request
  remove_job_request-Replied cmd s req none c h = no_change cmd s _
  remove_job_request-Replied cmd s req (some handler) c h =
      if_both (Replied cmd s) (is_empty req.arg) (no_change cmd s _)
        (job_reply-Replied cmd (lit "remove_job") req.arg s (handler req.arg s) c (h handler refl))

module _ {D S : Type 0} (library : JsonLibrary D) (api : Api D S) where
  module _ (cmd : Text) (s : S) (added : cmd ≡ lit "add_job") where
    add_reply-Replied :
        (name : Text) (r : S × Text)
        → (r.1 ≢ [] → r.0 ≡ s)
        → Replied {D = D} cmd s (job_reply (lit "add_job") name r)
    add_reply-Replied name r = job_reply-Replied cmd (lit "add_job") name s r (inl added)

    add_scheduled-Responded :
        (handler : Job → S → S × Text) (job : Job) (p : Parsed CronSchedule)
        → ((j : Job) → (handler j s).1 ≢ [] → (handler j s).0 ≡ s)
        → Responded {D = D} cmd s (add_scheduled handler job p s)
    unfolding add_scheduled
    add_scheduled-Responded handler job overflow h = added
    add_scheduled-Responded handler job malformed h = no_change cmd s _
    add_scheduled-Responded handler job (parsed schedule) h =
        let scheduled = record job { schedule = some schedule } in
        add_reply-Replied job.name (handler scheduled s) (h scheduled)

    add_body-Responded :
        (handler : Job → S → S × Text) (job : Job)
        → ((j : Job) → (handler j s).1 ≢ [] → (handler j s).0 ≡ s)
        → Responded {D = D} cmd s (add_body handler job s)
    unfolding add_body
    add_body-Responded handler job h =
        if_both (Responded cmd s) (is_empty job.name || is_empty job.command) (no_change cmd s _) (
          if_both (Responded cmd s) (is_empty job.schedule_expr)
            (add_reply-Replied job.name (handler job s) (h job))
            (add_scheduled-Responded handler job (parse job.schedule_expr) h))

    add_job_request-Responded :
        (body : library.Value) (handler : Option (Job → S → S × Text))
        → ((h : Job → S → S × Text) (j : Job) → handler ≡ some h → (h j s).1 ≢ [] → (h j s).0 ≡ s)
        → Responded {D = D} cmd s (add_job_request library api handler body s)
    unfolding add_job_request
    add_job_request-Responded body none h = no_change cmd s _
    add_job_request-Responded body (some handler) h =
        if_both (Responded cmd s) (library.is_object body)
          (add_body-Responded handler (job_of_body library body) λ j. h handler j refl)
          (no_change cmd s _)

  -- With handlers that change nothing when they report an error: every request line gets a
  -- response, unless the cron parser overflows in an `add_job`; the response is an object whose `ok`
  -- is true, or is false and comes with the text of an error and with the state as it was; and
  -- no command but `add_job`, `remove_job` and `run` changes the state.
  pub respond-Responded :
      IsControl api
      → (query : Query) (line : Text) (s : S)
      → Responded (parse_request library line).cmd s (respond library api query line s)
  unfolding respond status_reply
  respond-Responded control query line s =
      let req = parse_request library line in
      let P = Responded req.cmd s in
      let is : (t : Text) → equal req.cmd t ≡ true → req.cmd ≡ t = λ t. (equal_iff req.cmd t).0 in
      if_both P (equal req.cmd (lit "ping")) (read_only req.cmd s) (
        if_both P (equal req.cmd (lit "status")) (read_only req.cmd s) (
          if_both P (equal req.cmd (lit "jobs")) (read_only req.cmd s) (
            if_both P (equal req.cmd (lit "alerts")) (read_only req.cmd s) (
              if_both P (equal req.cmd (lit "history"))
                (history-Replied req.cmd s query req (api.db s))
                (if_both P (equal req.cmd (lit "runs"))
                  (runs-Replied req.cmd s query req (api.db s))
                  (when P (equal req.cmd (lit "add_job"))
                    (λ e.
                      add_job_request-Responded req.cmd s (is (lit "add_job") e)
                        (library.parse_json line) api.add_job_handler
                        λ h j. control.add_refused h j s)
                    (when P (equal req.cmd (lit "remove_job"))
                      (λ e.
                        remove_job_request-Replied req.cmd s req api.remove_job_handler
                          (inr (inl (is (lit "remove_job") e)))
                          λ h. control.remove_refused h req.arg s)
                      (when P (equal req.cmd (lit "run"))
                        (λ e.
                          run_request-Replied req.cmd s req api.run_handler
                            (inr (inr (inl (is (lit "run") e))))
                            λ h. control.run_refused h req.arg s)
                        (refuses req.cmd (lit "unknown command") s s refl)))))))))
