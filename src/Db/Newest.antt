-- ===== src/Db/Newest.antt =====
-- db.cpp, `last_run`: the run that it returns is the newest of the job.
use agent_pulse.Base.{
  Bool-cases, All, keep_if, In, ◌<ℤ◌, Text, equal, equal_iff, sort_insert, sort_by, ◌≤◌, ◌≡◌, refl,
  sym, subst, ◌≢◌, ◌⊎◌, inl, inr, true, false, Option, none, some, List, [], ◌∷◌, arith,
}
use agent_pulse.Db.{RunRecord, Database, done, c_text, run_precedes, runs_of_job, last_run}

-- No row of the list precedes this one.
abbrev pub IsNewest : RunRecord → List RunRecord → Type 0
IsNewest r = All (λ q. run_precedes q r ≡ false)

precedes_itself : (a : RunRecord) → run_precedes a a ≡ false
unfolding run_precedes
precedes_itself a = ground arith

not_before :
    (q a b : RunRecord)
    → run_precedes q b ≡ false
    → run_precedes a b ≡ true
    → run_precedes q a ≡ false
unfolding run_precedes
not_before q a b h k = ground arith

IsNewest-better :
    (a b : RunRecord) (rows : List RunRecord)
    → IsNewest b rows
    → run_precedes a b ≡ true
    → IsNewest a rows
IsNewest-better a b [] h k = tt
IsNewest-better a b (q ∷ rows) h k = (not_before q a b h.0 k, IsNewest-better a b rows h.1 k)

-- The head of the ordered rows, if there is one.
abbrev pub Head : List RunRecord → List RunRecord → Type 0
Head rows [] = rows ≡ []
Head rows (r ∷ rest) = In r rows × IsNewest r rows

sort_insert-Head :
    (a : RunRecord) (rows sorted : List RunRecord)
    → Head rows sorted
    → Head (a ∷ rows) (sort_insert run_precedes a sorted)
unfolding sort_insert
sort_insert-Head a rows [] h = (inl refl, (precedes_itself a, subst (IsNewest a) (sym h) tt))
sort_insert-Head a rows (b ∷ sorted) h = elim (Bool-cases (run_precedes a b)) [
  | inl first ↦ rw first (inl refl, (precedes_itself a, IsNewest-better a b rows h.1 first))
  | inr later ↦ rw later (inr h.0, (later, h.1))
]

sort_by-Head : (rows : List RunRecord) → Head rows (sort_by run_precedes rows)
unfolding sort_by
sort_by-Head [] = refl
sort_by-Head (a ∷ rows) = sort_insert-Head a rows (sort_by run_precedes rows) (sort_by-Head rows)

-- The run of this name started before, or at the same time with no larger id.
abbrev pub NoLater : Text → RunRecord → RunRecord → Type 0
NoLater name r q =
    q.job_name ≡ name
    → (q.started_at <ℤ r.started_at) ⊎ ((q.started_at ≡ r.started_at) × (q.id ≤ r.id))

-- What `last_run` may return without an error, for the rows of the table and the name as SQLite
-- compares it.
abbrev pub Latest : Text → List RunRecord → Option RunRecord → Type 0
Latest name rows none = All (λ q. q.job_name ≢ name) rows
Latest name rows (some r) = In r rows × (r.job_name ≡ name) × All (NoLater name r) rows

no_later : (name : Text) (q r : RunRecord) → run_precedes q r ≡ false → NoLater name r q
unfolding run_precedes
no_later name q r h same = ground arith

runs_In :
    (name : Text) (r : RunRecord) (rows : List RunRecord)
    → In r (keep_if (λ q. equal q.job_name name) rows)
    → In r rows × (r.job_name ≡ name)
runs_In name r [] i = absurd i
runs_In name r (q ∷ rows) i = elim (Bool-cases (equal q.job_name name)) [
  | inl same ↦ elim (rw same at i) [
    | inl here ↦ (inl here, (equal_iff r.job_name name).0 (rw here same))
    | inr there ↦ let (a, b) = runs_In name r rows there in (inr a, b)
  ]
  | inr other ↦ let (a, b) = runs_In name r rows (rw other at i) in (inr a, b)
]

runs-NoLater :
    (name : Text) (r : RunRecord) (rows : List RunRecord)
    → IsNewest r (keep_if (λ q. equal q.job_name name) rows)
    → All (NoLater name r) rows
runs-NoLater name r [] h = tt
runs-NoLater name r (q ∷ rows) h = elim (Bool-cases (equal q.job_name name)) [
  | inl same ↦
      let (first, rest) = (rw same at h) in (no_later name q r first, runs-NoLater name r rows rest)
  | inr other ↦ (
    λ same. absurd (cc (other, (equal_iff q.job_name name).1 same)),
    runs-NoLater name r rows (rw other at h),
  )
]

no_runs :
    (name : Text) (rows : List RunRecord)
    → keep_if (λ q. equal q.job_name name) rows ≡ []
    → All (λ q. q.job_name ≢ name) rows
no_runs name [] e = tt
no_runs name (q ∷ rows) e = elim (Bool-cases (equal q.job_name name)) [
  | inl same ↦ let h = rw same at e in cc
  | inr other ↦ (
    λ same. absurd (cc (other, (equal_iff q.job_name name).1 same)),
    no_runs name rows (rw other at e),
  )
]

Head-Latest :
    (name : Text) (rows sorted : List RunRecord)
    → Head (keep_if (λ q. equal q.job_name name) rows) sorted
    → Latest name rows (elim sorted [ [] ↦ none | r ∷ rs ↦ some r ])
Head-Latest name rows [] h = no_runs name rows h
Head-Latest name rows (r ∷ sorted) (i, h) =
    let (a, b) = runs_In name r rows i in (a, b, runs-NoLater name r rows h)

-- Without an error of SQLite, `last_run` returns none only if no row of the table of runs has the
-- job's name, up to its first NUL byte; otherwise it returns a row of the table that has this name,
-- and every row of this name started before it, or at the same time with an id that is no larger.
pub last_run-Latest :
    {D : Type 0} (job_name : Text) (db : Database D)
    → (r : Option RunRecord) × (last_run none job_name db ≡ done r)
      × Latest (c_text job_name) db.runs r
unfolding last_run
last_run-Latest job_name db =
    (_, refl, Head-Latest (c_text job_name) db.runs _ (sort_by-Head (runs_of_job job_name db)))
