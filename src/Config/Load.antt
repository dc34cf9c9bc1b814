-- ===== src/Config/Load.antt =====
-- config.cpp, `load_config` and its parsers. The YAML library is a parameter: its nodes, and the
-- accesses that the source makes, each of which may throw.
pub mod Items
pub mod Checked
use agent_pulse.Base.{
  if◌then◌else◌, find, ℤ, pos, ltb_ℤ, Text, lit, equal, is_empty, Doubles, decimal, ℕ, suc, Bool,
  true, false, ◌||◌, Option, none, some, List, [], ◌∷◌, ◌++◌,
}
use agent_pulse.Cron.{parsed, malformed, overflow, CronSchedule, parse}
use agent_pulse.Config.{
  MissedRunPolicy, ignore, run_on_wake, run_now, Job, Condition, greater_than, less_than, at_least,
  Rule, QuietHours,
}

-- A load ends with a value, with an exception and its message, or in the overflow of the cron
-- parser.
pub data Loaded {ℓ} (A : Type ℓ) : Type ℓ where
  loaded : A → Loaded A
  thrown : Text → Loaded A
  undefined : Loaded A

infixl 5 ◌>>=◌
abbrev pub ◌>>=◌ {ℓ κ} : {A : Type ℓ} {B : Type κ} → Loaded A → (A → Loaded B) → Loaded B
loaded a >>= f = f a
thrown message >>= f = thrown message
undefined >>= f = undefined

-- The value of a load, if it ends with one, satisfies the predicate.
abbrev pub Ensures {ℓ} : {A : Type ℓ} → (A → Type 0) → Loaded A → Type 0
Ensures P (loaded a) = P a
Ensures P (thrown message) = Unit
Ensures P undefined = Unit

pub then-Ensures {ℓ κ} :
    {A : Type ℓ} {B : Type κ} (P : B → Type 0) (Q : A → Type 0) (m : Loaded A) (f : A → Loaded B)
    → Ensures Q m
    → ((a : A) → Q a → Ensures P (f a))
    → Ensures P (m >>= f)
then-Ensures P Q (loaded a) f q h = h a q
then-Ensures P Q (thrown message) f q h = tt
then-Ensures P Q undefined f q h = tt

pub then_always {ℓ κ} :
    {A : Type ℓ} {B : Type κ} (P : B → Type 0) (m : Loaded A) (f : A → Loaded B)
    → ((a : A) → Ensures P (f a))
    → Ensures P (m >>= f)
then_always P (loaded a) f h = h a
then_always P (thrown message) f h = tt
then_always P undefined f h = tt

-- `IsMap`, the node under a key if it is defined, the items if `IsSequence`, and `as`.
pub record Yaml (D : Type 0) : Type 1 where
  pub Node : Type 0
  pub is_map : Node → Bool
  pub get : Node → Text → Loaded (Option Node)
  pub items : Node → Option (List Node)
  pub as_text : Node → Loaded Text
  pub as_int : Node → Loaded ℤ
  pub as_double : Node → Loaded D

pub record Config (D : Type 0) : Type 0 where
  pub jobs : List Job
  pub rules : List (Rule D)
  pub quiet_hours : QuietHours

abbrev pub no_quiet_hours : QuietHours
no_quiet_hours = record { enabled = false; start_hour = pos 0; end_hour = pos 0 }

unfoldable pub parse_policy : Text → Loaded MissedRunPolicy
parse_policy s =
    if equal s (lit "run_on_wake")
    then loaded run_on_wake
    else if equal s (lit "run_now")
    then loaded run_now
    else if equal s (lit "none") || is_empty s
    then loaded ignore
    else thrown (lit "invalid missed_run_policy: '" ++ s ++ lit "'")

unfoldable pub parse_condition : Text → Loaded Condition
parse_condition s =
    if equal s (lit "greater_than") || equal s (lit ">")
    then loaded greater_than
    else if equal s (lit "less_than") || equal s (lit "<")
    then loaded less_than
    else if equal s (lit "at_least") || equal s (lit ">=")
    then loaded at_least
    else thrown (lit "invalid condition: '" ++ s ++ lit "'")

-- The ordinal of `thermal_state_from_string` (metrics/thermal_sampler.mm).
unfoldable pub thermal_state_from_string : Text → ℤ
thermal_state_from_string name =
    if equal name (lit "fair")
    then pos 1
    else if equal name (lit "serious")
    then pos 2
    else if equal name (lit "critical")
    then pos 3
    else pos 0

-- An optional key: its value, or the default of the field.
abbrev pub given {ℓ κ} : {N : Type ℓ} {A : Type κ} → Option N → (N → Loaded A) → A → Loaded A
given none read default = loaded default
given (some node) read default = read node

-- The check that a number is not negative.
unfoldable pub not_negative : Text → ℤ → Loaded ℤ
not_negative message n = if ltb_ℤ n (pos 0) then thrown message else loaded n

-- The schedule of the expression.
unfoldable pub parse_schedule : Text → Text → Loaded (Option CronSchedule × Text)
parse_schedule name expr = elim (parse expr) [
  | parsed cron ↦ loaded (some cron, expr)
  | malformed ↦
      thrown (lit "job '" ++ name ++ lit "' has invalid cron schedule: '" ++ expr ++ lit "'")
  | overflow ↦ undefined
]

module _ (doubles : Doubles) (yaml : Yaml doubles.Double) where
  open doubles use {Double, zero_double, from_int}
  open yaml use {Node, is_map, get, items, as_text, as_int, as_double}

  -- A key that must be there.
  unfoldable pub required : Text → Text → Node → Loaded Node
  required key message node = do
    found ← get node key
    elim found [ none ↦ thrown message | some n ↦ loaded n ]

  -- A key that must be there, and whose text is not empty.
  unfoldable pub required_text : Text → Text → Node → Loaded Text
  unfolding required
  required_text key message node = do
    n ← required key message node
    text ← as_text n
    if is_empty text then thrown message else loaded text

  -- An optional schedule.
  unfoldable pub cron_of : Text → Option Node → Loaded (Option CronSchedule × Text)
  unfolding parse_schedule
  cron_of name found = given found (λ n. do text ← as_text n; parse_schedule name text) (none, [])

  -- An optional policy.
  unfoldable pub policy_of : Option Node → Loaded MissedRunPolicy
  unfolding parse_policy
  policy_of found = given found (λ n. do text ← as_text n; parse_policy text) ignore

  -- An optional number, which may not be negative.
  unfoldable pub number_of : Text → Option Node → Loaded ℤ
  unfolding not_negative
  number_of message found = given found (λ n. do t ← as_int n; not_negative message t) (pos 0)

  -- `parse_job` on a mapping.
  unfoldable pub job_of_map : Node → ℕ → Loaded Job
  unfolding required_text policy_of cron_of number_of
  job_of_map node index = do
    name ←
        required_text (lit "name") (lit "job #" ++ decimal index ++ lit " is missing 'name'") node
    let label = lit "job '" ++ name
    command ← required_text (lit "command") (label ++ lit "' is missing 'command'") node
    schedule_node ← get node (lit "schedule")
    cron ← cron_of name schedule_node
    policy_node ← get node (lit "missed_run_policy")
    policy ← policy_of policy_node
    timeout_node ← get node (lit "timeout_seconds")
    timeout_seconds ← number_of (label ++ lit "' has negative timeout_seconds") timeout_node
    retries_node ← get node (lit "retries")
    retries ← number_of (label ++ lit "' has negative retries") retries_node
    loaded (record {
      name = name;
      command = command;
      schedule = cron.0;
      schedule_expr = cron.1;
      missed_run_policy = policy;
      timeout_seconds = timeout_seconds;
      retries = retries;
      source = lit "config";
    })

  unfoldable pub parse_job : Node → ℕ → Loaded Job
  unfolding job_of_map
  parse_job node index =
      if is_map node
      then job_of_map node index
      else thrown (lit "job #" ++ decimal index ++ lit " is not a mapping")

  -- A threshold of the thermal state is the ordinal of its name.
  unfoldable pub threshold_of : Text → Node → Loaded Double
  threshold_of metric node =
      let ordinal = do text ← as_text node; loaded (from_int (thermal_state_from_string text))
      in if equal metric (lit "system.thermal_state") then ordinal else as_double node

  -- The check at the end of `parse_rule`.
  unfoldable pub finish_rule : Text → Rule Double → Loaded (Rule Double)
  finish_rule label rule =
      if ltb_ℤ rule.duration_seconds (pos 0) || ltb_ℤ rule.cooldown_seconds (pos 0)
      then thrown (label ++ lit "' has negative duration/cooldown")
      else loaded rule

  -- `parse_rule` on a mapping.
  unfoldable pub rule_of_map : Node → ℕ → Loaded (Rule Double)
  unfolding required required_text parse_condition threshold_of finish_rule
  rule_of_map node index = do
    name ←
        required_text (lit "name") (lit "rule #" ++ decimal index ++ lit " is missing 'name'") node
    let label = lit "rule '" ++ name
    metric_node ← required (lit "metric") (label ++ lit "' is missing 'metric'") node
    metric ← as_text metric_node
    condition_node ← required (lit "condition") (label ++ lit "' is missing 'condition'") node
    condition_text ← as_text condition_node
    condition ← parse_condition condition_text
    threshold_node ← required (lit "threshold") (label ++ lit "' is missing 'threshold'") node
    threshold ← threshold_of metric threshold_node
    duration_node ← get node (lit "duration_seconds")
    duration ← given duration_node as_int (pos 0)
    cooldown_node ← get node (lit "cooldown_seconds")
    cooldown ← given cooldown_node as_int (pos 0)
    severity_node ← get node (lit "severity")
    severity ← given severity_node as_text (lit "warning")
    finish_rule label (record {
      name = name;
      metric = metric;
      condition = condition;
      threshold = threshold;
      duration_seconds = duration;
      cooldown_seconds = cooldown;
      severity = severity;
    })

  unfoldable pub parse_rule : Node → ℕ → Loaded (Rule Double)
  unfolding rule_of_map
  parse_rule node index =
      if is_map node
      then rule_of_map node index
      else thrown (lit "rule #" ++ decimal index ++ lit " is not a mapping")

  -- The loop over the nodes of a sequence, with the names so far: each node is parsed, and a name
  -- that is there already is an error.
  unfoldable pub parse_all :
      {A : Type 0}
      → (A → Text)
      → Text
      → (Node → ℕ → Loaded A)
      → List Text
      → ℕ
      → List Node
      → Loaded (List A)
  parse_all name_of kind parse_one names i [] = loaded []
  parse_all name_of kind parse_one names i (node ∷ nodes) = do
    a ← parse_one node i
    rest ← elim (find (λ n. equal n (name_of a)) names) [
      | some n ↦ thrown (lit "duplicate " ++ kind ++ lit " name: '" ++ name_of a ++ lit "'")
      | none ↦ parse_all name_of kind parse_one (name_of a ∷ names) (suc i) nodes
    ]
    loaded (a ∷ rest)

  -- One of the lists of the file.
  unfoldable pub parse_section :
      {A : Type 0} → (A → Text) → Text → Text → (Node → ℕ → Loaded A) → Node → Loaded (List A)
  unfolding parse_all
  parse_section name_of key kind parse_one root = do
    section ← get root key
    elim section [
      | none ↦ loaded []
      | some node ↦ elim (items node) [
        | none ↦ thrown (lit "'" ++ key ++ lit "' must be a sequence")
        | some nodes ↦ parse_all name_of kind parse_one [] 0 nodes
      ]
    ]

  unfoldable pub parse_quiet_hours : Node → Loaded QuietHours
  parse_quiet_hours root = do
    section ← get root (lit "quiet_hours")
    elim section [
      | none ↦ loaded no_quiet_hours
      | some node ↦ do
        start_node ← get node (lit "start_hour")
        start_hour ← given start_node as_int (pos 0)
        end_node ← get node (lit "end_hour")
        end_hour ← given end_node as_int (pos 0)
        loaded (record { enabled = true; start_hour = start_hour; end_hour = end_hour })
    ]

  unfoldable pub parse_root : Node → Loaded (Config Double)
  unfolding parse_section parse_job parse_rule parse_quiet_hours
  parse_root root = do
    jobs ← parse_section (λ (job : Job). job.name) (lit "jobs") (lit "job") parse_job root
    rules ←
        parse_section (λ (rule : Rule Double). rule.name) (lit "rules") (lit "rule") parse_rule root
    quiet_hours ← parse_quiet_hours root
    loaded (record { jobs = jobs; rules = rules; quiet_hours = quiet_hours })

  -- `file` is what `LoadFile` gives, or none if there is no such file.
  unfoldable pub load_config : Option (Loaded Node) → Loaded (Config Double)
  unfolding parse_root
  load_config none = loaded (record { jobs = []; rules = []; quiet_hours = no_quiet_hours })
  load_config (some (loaded root)) = parse_root root
  load_config (some (thrown message)) = thrown (lit "cannot parse config: " ++ message)
  load_config (some undefined) = undefined
