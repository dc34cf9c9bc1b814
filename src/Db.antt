-- ===== src/Db.antt =====
-- daemon/src/db.hpp and db.cpp. The tables of `migrate` are lists of rows, the newest last, and each
-- SQL statement of the source is written out over them. A statement may fail; the error of SQLite
-- is then an argument, and the tables stay as they were.
pub mod Definitions
pub mod Newest
use agent_pulse.Base.{
  ltb, ◌==◌, if◌then◌else◌, length, take, keep_if, ℤ, pos, negsuc, ltb_ℤ, leb_ℤ, eqb_ℤ, Text, equal,
  sort_by, ℕ, ◌+◌, Bool, true, false, not, ◌&&◌, ◌||◌, Option, none, some, List, [], ◌∷◌, ◌++◌, map,
}

pub record RunRecord : Type 0 where
  pub id : ℕ
  pub job_name : Text
  pub started_at : ℤ
  pub ended_at : ℤ
  pub status : Text
  pub exit_code : ℤ
  pub duration_ms : ℤ
  pub stdout_text : Text
  pub stderr_text : Text
  pub trigger : Text

pub record AlertRecord (D : Type 0) : Type 0 where
  pub id : ℕ
  pub ts : ℤ
  pub rule_name : Text
  pub severity : Text
  pub metric : Text
  pub kind : Text
  pub value : D
  pub threshold : D
  pub message : Text
  pub attribution : Text

pub record JobDef : Type 0 where
  pub name : Text
  pub command : Text
  pub schedule_expr : Text
  pub missed_run_policy : Text
  pub timeout_seconds : ℤ
  pub retries : ℤ

pub record MetricRow (D : Type 0) : Type 0 where
  pub id : ℕ
  pub ts : ℤ
  pub metric : Text
  pub value : D

pub record Database (D : Type 0) : Type 0 where
  pub metrics : List (MetricRow D)
  pub runs : List RunRecord
  pub alerts : List (AlertRecord D)
  pub job_defs : List JobDef

-- `DbError`, with its message.
pub data DbResult {ℓ} (A : Type ℓ) : Type ℓ where
  done : A → DbResult A
  db_error : Text → DbResult A

-- A statement, given the message of the error that `prepare` or `step` throws, if any.
abbrev pub unless_fault {ℓ} : {A : Type ℓ} → Option Text → A → DbResult A
unless_fault none a = done a
unless_fault (some error) a = db_error error

-- `LIMIT`: a negative bound is none.
unfoldable pub limit_to {ℓ} : {A : Type ℓ} → ℤ → List A → List A
limit_to (pos n) rows = take n rows
limit_to (negsuc n) rows = rows

-- A text is bound by `c_str()` and read back by `sqlite3_column_text`: it ends before its first NUL.
unfoldable pub c_text : Text → Text
c_text [] = []
c_text (c ∷ cs) = if c == 0 then [] else c ∷ c_text cs

-- `ORDER BY name` compares bytes.
unfoldable pub text_lt : Text → Text → Bool
text_lt [] [] = false
text_lt [] (y ∷ b) = true
text_lt (x ∷ a) [] = false
text_lt (x ∷ a) (y ∷ b) = if ltb x y then true else x == y && text_lt a b

-- Descending by time, then by row.
abbrev pub newer : ℤ → ℕ → ℤ → ℕ → Bool
newer t i u j = ltb_ℤ u t || (eqb_ℤ t u && ltb j i)

unfoldable pub run_precedes : RunRecord → RunRecord → Bool
run_precedes a b = newer a.started_at a.id b.started_at b.id

unfoldable pub def_precedes : JobDef → JobDef → Bool
def_precedes a b = text_lt a.name b.name

-- The row id that SQLite gives, one past the largest.
unfoldable pub next_id : List ℕ → ℕ
next_id [] = 1
next_id (i ∷ is) = let n = next_id is in if ltb i n then n else i + 1

-- The rows of `job_defs` once a definition is put in, by the conflict clause over one of its name.
unfoldable pub upsert_row : JobDef → List JobDef → List JobDef
upsert_row def [] = def ∷ []
upsert_row def (d ∷ ds) = if equal d.name def.name then def ∷ ds else d ∷ upsert_row def ds

unfoldable pub stored_def : JobDef → JobDef
stored_def def = record def {
  name = c_text def.name;
  command = c_text def.command;
  schedule_expr = c_text def.schedule_expr;
  missed_run_policy = c_text def.missed_run_policy;
}

module _ {D : Type 0} where
  unfoldable pub metric_precedes : MetricRow D → MetricRow D → Bool
  metric_precedes a b = newer a.ts a.id b.ts b.id

  unfoldable pub metric_follows : MetricRow D → MetricRow D → Bool
  metric_follows a b = newer b.ts b.id a.ts a.id

  unfoldable pub alert_precedes : AlertRecord D → AlertRecord D → Bool
  alert_precedes a b = newer a.ts a.id b.ts b.id

  unfoldable pub insert_metric : Option Text → ℤ → Text → D → Database D → DbResult (Database D)
  insert_metric fault ts metric value db =
      let row : MetricRow D = record {
        id = next_id (map (λ r. r.id) db.metrics);
        ts = ts;
        metric = c_text metric;
        value = value;
      } in
      unless_fault fault (record db { metrics = db.metrics ++ row ∷ [] })

  abbrev pub rows_of_metric : Text → Database D → List (MetricRow D)
  rows_of_metric metric db = keep_if (λ r. equal r.metric (c_text metric)) db.metrics

  unfoldable pub latest_metric : Option Text → Text → Database D → DbResult (Option (ℤ × D))
  latest_metric fault metric db =
      unless_fault fault (elim (sort_by metric_precedes (rows_of_metric metric db)) [
        | [] ↦ none
        | r ∷ rs ↦ some (r.ts, r.value)
      ])

  -- Rows of one time stand in the order of insertion.
  unfoldable pub metric_history : Option Text → Text → ℤ → Database D → DbResult (List (ℤ × D))
  metric_history fault metric since_ts db = unless_fault fault (
      map (λ r. (r.ts, r.value))
        (sort_by metric_follows (keep_if (λ r. leb_ℤ since_ts r.ts) (rows_of_metric metric db))))

  unfoldable pub insert_run : Option Text → RunRecord → Database D → DbResult (Database D × ℕ)
  insert_run fault run db =
      let id = next_id (map (λ r. r.id) db.runs) in
      let row = record run {
        id = id;
        job_name = c_text run.job_name;
        status = c_text run.status;
        stdout_text = c_text run.stdout_text;
        stderr_text = c_text run.stderr_text;
        trigger = c_text run.trigger;
      } in
      unless_fault fault (record db { runs = db.runs ++ row ∷ [] }, id)

  abbrev pub runs_of_job : Text → Database D → List RunRecord
  runs_of_job job_name db = keep_if (λ r. equal r.job_name (c_text job_name)) db.runs

  unfoldable pub last_run : Option Text → Text → Database D → DbResult (Option RunRecord)
  last_run fault job_name db =
      unless_fault fault
        (elim (sort_by run_precedes (runs_of_job job_name db)) [ [] ↦ none | r ∷ rs ↦ some r ])

  unfoldable pub count_runs : Option Text → Text → Database D → DbResult ℕ
  count_runs fault job_name db = unless_fault fault (length (runs_of_job job_name db))

  unfoldable pub recent_runs : Option Text → Text → ℤ → Database D → DbResult (List RunRecord)
  recent_runs fault job_name limit db =
      unless_fault fault (limit_to limit (sort_by run_precedes (runs_of_job job_name db)))

  unfoldable pub insert_alert : Option Text → AlertRecord D → Database D → DbResult (Database D × ℕ)
  insert_alert fault alert db =
      let id = next_id (map (λ r. r.id) db.alerts) in
      let row = record alert {
        id = id;
        rule_name = c_text alert.rule_name;
        severity = c_text alert.severity;
        metric = c_text alert.metric;
        kind = c_text alert.kind;
        message = c_text alert.message;
        attribution = c_text alert.attribution;
      } in
      unless_fault fault (record db { alerts = db.alerts ++ row ∷ [] }, id)

  unfoldable pub recent_alerts : Option Text → ℤ → Database D → DbResult (List (AlertRecord D))
  recent_alerts fault limit db =
      unless_fault fault (limit_to limit (sort_by alert_precedes db.alerts))

  unfoldable pub upsert_job_def : Option Text → JobDef → Database D → DbResult (Database D)
  upsert_job_def fault def db =
      unless_fault fault (record db { job_defs = upsert_row (stored_def def) db.job_defs })

  unfoldable pub delete_job_def : Option Text → Text → Database D → DbResult (Database D)
  delete_job_def fault name db =
      unless_fault fault
        (record db { job_defs = keep_if (λ d. not (equal d.name (c_text name))) db.job_defs })

  unfoldable pub load_job_defs : Option Text → Database D → DbResult (List JobDef)
  load_job_defs fault db = unless_fault fault (sort_by def_precedes db.job_defs)
