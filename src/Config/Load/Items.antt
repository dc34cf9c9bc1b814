-- ===== src/Config/Load/Items.antt =====
-- config.cpp, `parse_job` and `parse_rule`: what they check of each job and each rule.
use agent_pulse.Base.{
  Bool-cases, ℤ, pos, ltb_ℤ, Text, lit, is_empty, Doubles, ℕ, ◌≡◌, refl, ◌⊎◌, inl, inr, false,
  Option, none, some, [], ◌++◌,
}
use agent_pulse.Cron.{Parsed, parsed, malformed, overflow, CronSchedule, parse}
use agent_pulse.Config.{MissedRunPolicy, Job, Rule}
use agent_pulse.Config.Load.{
  Loaded, Ensures, then-Ensures, then_always, Yaml, parse_condition, given, not_negative,
  parse_schedule, required, required_text, cron_of, policy_of, number_of, job_of_map, parse_job,
  threshold_of, finish_rule, rule_of_map, parse_rule,
}

-- A job has a name and a command, no negative numbers, and the schedule of its expression, or
-- neither.
pub record IsJob (job : Job) : Type 0 where
  pub name_ok : is_empty job.name ≡ false
  pub command_ok : is_empty job.command ≡ false
  pub timeout_ok : ltb_ℤ job.timeout_seconds (pos 0) ≡ false
  pub retries_ok : ltb_ℤ job.retries (pos 0) ≡ false
  pub schedule_ok :
      ((job.schedule ≡ none) × (job.schedule_expr ≡ []))
      ⊎ ((cron : CronSchedule) × (job.schedule ≡ some cron)
          × (parse job.schedule_expr ≡ parsed cron))
  pub source_ok : job.source ≡ lit "config"

pub record IsRule {D : Type 0} (rule : Rule D) : Type 0 where
  pub name_ok : is_empty rule.name ≡ false
  pub duration_ok : ltb_ℤ rule.duration_seconds (pos 0) ≡ false
  pub cooldown_ok : ltb_ℤ rule.cooldown_seconds (pos 0) ≡ false

abbrev NonEmpty : Text → Type 0
NonEmpty t = is_empty t ≡ false

abbrev NotNegative : ℤ → Type 0
NotNegative n = ltb_ℤ n (pos 0) ≡ false

-- What the schedule and its expression say of one another.
abbrev Scheduled : Option CronSchedule × Text → Type 0
Scheduled c =
    ((c.0 ≡ none) × (c.1 ≡ []))
    ⊎ ((cron : CronSchedule) × (c.0 ≡ some cron) × (parse c.1 ≡ parsed cron))

given-Ensures :
    {N A : Type 0} (P : A → Type 0) (o : Option N) (read : N → Loaded A) (default : A)
    → P default
    → ((n : N) → Ensures P (read n))
    → Ensures P (given o read default)
given-Ensures P none read default d r = d
given-Ensures P (some n) read default d r = r n

not_negative-NotNegative : (message : Text) (n : ℤ) → Ensures NotNegative (not_negative message n)
unfolding not_negative
not_negative-NotNegative message n = elim (Bool-cases (ltb_ℤ n (pos 0))) [
  | inl negative ↦ rw negative tt
  | inr ok ↦ rw ok ok
]

Parsed-cases :
    (r : Parsed CronSchedule)
    → ((cron : CronSchedule) × (r ≡ parsed cron)) ⊎ ((r ≡ malformed) ⊎ (r ≡ overflow))
Parsed-cases (parsed cron) = inl (cron, refl)
Parsed-cases malformed = inr (inl refl)
Parsed-cases overflow = inr (inr refl)

parse_schedule-Scheduled : (name expr : Text) → Ensures Scheduled (parse_schedule name expr)
unfolding parse_schedule
parse_schedule-Scheduled name expr = elim (Parsed-cases (parse expr)) [
  | inl (cron, q) ↦ rw (parse_schedule, q) (inr (cron, refl, q))
  | inr (inl q) ↦ rw (parse_schedule, q) tt
  | inr (inr q) ↦ rw (parse_schedule, q) tt
]

made-IsJob :
    (name command : Text) (cron : Option CronSchedule × Text) (policy : MissedRunPolicy)
    (timeout retries : ℤ)
    → NonEmpty name
    → NonEmpty command
    → Scheduled cron
    → NotNegative timeout
    → NotNegative retries
    → IsJob (record {
      name = name;
      command = command;
      schedule = cron.0;
      schedule_expr = cron.1;
      missed_run_policy = policy;
      timeout_seconds = timeout;
      retries = retries;
      source = lit "config";
    })
made-IsJob name command cron policy timeout retries n c s t r = record {
  name_ok = n;
  command_ok = c;
  timeout_ok = t;
  retries_ok = r;
  schedule_ok = s;
  source_ok = refl;
}

module _ (doubles : Doubles) (yaml : Yaml doubles.Double) where
  open yaml use {Node, get, items, as_text, as_int, is_map}

  required_text-NonEmpty :
      (key message : Text) (node : Node)
      → Ensures NonEmpty (required_text doubles yaml key message node)
  unfolding required_text
  required_text-NonEmpty key message node =
      then_always NonEmpty (required doubles yaml key message node) _ (λ n.
        then_always NonEmpty (as_text n) _
          (λ t. elim (Bool-cases (is_empty t)) [ inl bad ↦ rw bad tt | inr ok ↦ rw ok ok ]))

  number_of-NotNegative :
      (message : Text) (found : Option Node)
      → Ensures NotNegative (number_of doubles yaml message found)
  unfolding number_of
  number_of-NotNegative message found =
      given-Ensures NotNegative found _ (pos 0) refl
        (λ n. then_always NotNegative (as_int n) _ (not_negative-NotNegative message))

  cron_of-Scheduled :
      (name : Text) (found : Option Node) → Ensures Scheduled (cron_of doubles yaml name found)
  unfolding cron_of
  cron_of-Scheduled name found =
      given-Ensures Scheduled found _ (none, []) (inl (refl, refl))
        (λ n. then_always Scheduled (as_text n) _ (parse_schedule-Scheduled name))

  job_of_map-IsJob : (node : Node) (index : ℕ) → Ensures IsJob (job_of_map doubles yaml node index)
  unfolding job_of_map
  job_of_map-IsJob node index =
      then-Ensures IsJob NonEmpty _ _ (required_text-NonEmpty _ _ node) (λ name name_ok.
        then-Ensures IsJob NonEmpty _ _ (required_text-NonEmpty _ _ node) (λ command command_ok.
          then_always IsJob (get node (lit "schedule")) _ (λ schedule_node.
            then-Ensures IsJob Scheduled _ _ (cron_of-Scheduled name schedule_node) (λ cron cron_ok.
              then_always IsJob (get node (lit "missed_run_policy")) _ (λ policy_node.
                then_always IsJob (policy_of doubles yaml policy_node) _ (λ policy.
                  then_always IsJob (get node (lit "timeout_seconds")) _ (λ timeout_node.
                    then-Ensures IsJob NotNegative _ _ (number_of-NotNegative _ timeout_node)
                      (λ timeout timeout_ok.
                        then_always IsJob (get node (lit "retries")) _ (λ retries_node.
                          then-Ensures IsJob NotNegative _ _ (number_of-NotNegative _ retries_node)
                            (λ retries retries_ok.
                              made-IsJob name command cron policy timeout retries name_ok command_ok
                                cron_ok timeout_ok retries_ok))))))))))

  pub parse_job-IsJob :
      (node : Node) (index : ℕ) → Ensures IsJob (parse_job doubles yaml node index)
  unfolding parse_job
  parse_job-IsJob node index = elim (Bool-cases (is_map node)) [
    | inl is ↦ rw is (job_of_map-IsJob node index)
    | inr not_map ↦ rw not_map tt
  ]

  finish_rule-IsRule :
      (label : Text) (rule : Rule doubles.Double)
      → NonEmpty rule.name
      → Ensures IsRule (finish_rule doubles yaml label rule)
  unfolding finish_rule
  finish_rule-IsRule label rule name_ok = elim (Bool-cases (ltb_ℤ rule.duration_seconds (pos 0))) [
    | inl bad ↦ rw bad tt
    | inr ok ↦ elim (Bool-cases (ltb_ℤ rule.cooldown_seconds (pos 0))) [
      | inl bad ↦ rw (ok, bad) tt
      | inr fine ↦
          rw (ok, fine) (record { name_ok = name_ok; duration_ok = ok; cooldown_ok = fine })
    ]
  ]

  rule_of_map-IsRule :
      (node : Node) (index : ℕ) → Ensures IsRule (rule_of_map doubles yaml node index)
  unfolding rule_of_map
  rule_of_map-IsRule node index =
      then-Ensures IsRule NonEmpty _ _ (required_text-NonEmpty _ _ node) (λ name name_ok.
        then_always IsRule
          (required doubles yaml (lit "metric")
            (lit "rule '" ++ name ++ lit "' is missing 'metric'") node)
          _
          (λ metric_node. then_always IsRule (as_text metric_node) _ (λ metric.
            then_always IsRule
              (required doubles yaml (lit "condition")
                (lit "rule '" ++ name ++ lit "' is missing 'condition'") node)
              _
              (λ condition_node. then_always IsRule (as_text condition_node) _ (λ condition_text.
                then_always IsRule (parse_condition condition_text) _ (λ condition.
                  then_always IsRule
                    (required doubles yaml (lit "threshold")
                      (lit "rule '" ++ name ++ lit "' is missing 'threshold'") node)
                    _
                    (λ threshold_node.
                      then_always IsRule (threshold_of doubles yaml metric threshold_node) _
                        (λ threshold.
                          then_always IsRule (get node (lit "duration_seconds")) _ (λ duration_node.
                            then_always IsRule (given duration_node as_int (pos 0)) _ (λ duration.
                              then_always IsRule (get node (lit "cooldown_seconds")) _
                                (λ cooldown_node.
                                  then_always IsRule (given cooldown_node as_int (pos 0)) _
                                    (λ cooldown.
                                      then_always IsRule (get node (lit "severity")) _
                                        (λ severity_node.
                                          then_always IsRule
                                            (given severity_node as_text (lit "warning")) _
                                            (λ severity.
                                              finish_rule-IsRule (lit "rule '" ++ name)
                                                (record {
                                                  name = name;
                                                  metric = metric;
                                                  condition = condition;
                                                  threshold = threshold;
                                                  duration_seconds = duration;
                                                  cooldown_seconds = cooldown;
                                                  severity = severity;
                                                })
                                                name_ok))))))))))))))

  pub parse_rule-IsRule :
      (node : Node) (index : ℕ) → Ensures IsRule (parse_rule doubles yaml node index)
  unfolding parse_rule
  parse_rule-IsRule node index = elim (Bool-cases (is_map node)) [
    | inl is ↦ rw is (rule_of_map-IsRule node index)
    | inr not_map ↦ rw not_map tt
  ]
