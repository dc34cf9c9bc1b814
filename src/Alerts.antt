-- ===== src/Alerts.antt =====
-- daemon/src/alerts/alert_engine.hpp and alert_engine.cpp. A rule's own state machine is
-- `rule_tick`, the body of the loop of `evaluate`.
pub mod Quiet
pub mod Episodes
pub mod Engine
use agent_pulse.Base.{
  if◌then◌else◌, value_or, ℤ, pos, ◌-ℤ◌, ltb_ℤ, leb_ℤ, eqb_ℤ, Text, lit, equal, Dict, lookup,
  insert, Doubles, Bool, true, false, not, ◌&&◌, ◌||◌, Option, none, some, List, [], ◌∷◌, ◌++◌,
}
use agent_pulse.Cron.{Tm}
use agent_pulse.Config.{
  Condition, greater_than, less_than, at_least, condition_to_string, Rule, QuietHours,
}

pub record AlertEvent (D : Type 0) : Type 0 where
  pub rule_name : Text
  pub severity : Text
  pub metric : Text
  pub kind : Text
  pub value : D
  pub threshold : D
  pub ts : ℤ
  pub message : Text
  pub attribution : Text
  pub notify : Bool

pub record RuleState : Type 0 where
  pub since : ℤ
  pub firing : Bool
  pub notified : Bool
  pub last_fired : ℤ

-- The state that `state_[name]` makes for a new name.
abbrev pub initial : RuleState
initial = record { since = pos 0; firing = false; notified = false; last_fired = pos 0 }

pub record AlertEngine (D : Type 0) : Type 0 where
  pub rules : List (Rule D)
  pub quiet_hours : QuietHours
  pub state : Dict RuleState

unfoldable pub hour_in_quiet_hours : QuietHours → ℤ → Bool
hour_in_quiet_hours q h =
    if eqb_ℤ q.start_hour q.end_hour
    then false
    else if ltb_ℤ q.start_hour q.end_hour
    then leb_ℤ q.start_hour h && ltb_ℤ h q.end_hour
    else leb_ℤ q.start_hour h || ltb_ℤ h q.end_hour

-- `localtime` stands for `localtime_r`, as in Cron/Search.
unfoldable pub in_quiet_hours : (ℤ → Tm) → QuietHours → ℤ → Bool
unfolding hour_in_quiet_hours
in_quiet_hours localtime q now =
    if not q.enabled then false else hour_in_quiet_hours q (pos (localtime now).tm_hour)

-- What one call of `evaluate` gives to every rule.
pub record Sample (D : Type 0) : Type 0 where
  pub metrics : Dict D
  pub now : ℤ
  pub quiet : Bool
  pub cpu_attribution : Text

module _ (doubles : Doubles) where
  open doubles use {Double, gt, lt, ge, zero_double, show}

  unfoldable pub condition_met : Condition → Double → Double → Bool
  condition_met greater_than value threshold = gt value threshold
  condition_met less_than value threshold = lt value threshold
  condition_met at_least value threshold = ge value threshold

  unfoldable pub format_message : Rule Double → Double → Bool → Text
  format_message rule value true =
      rule.name
      ++ lit ": "
      ++ rule.metric
      ++ lit " = "
      ++ show value
      ++ lit " ("
      ++ condition_to_string rule.condition
      ++ lit " "
      ++ show rule.threshold
      ++ lit ")"
  format_message rule value false =
      rule.name ++ lit ": recovered (" ++ rule.metric ++ lit " = " ++ show value ++ lit ")"

  unfoldable pub firing_event : Rule Double → Double → Sample Double → AlertEvent Double
  firing_event rule value s = record {
    rule_name = rule.name;
    severity = rule.severity;
    metric = rule.metric;
    kind = lit "firing";
    value = value;
    threshold = rule.threshold;
    ts = s.now;
    message = format_message rule value true;
    attribution = if equal rule.metric (lit "system.cpu.percent") then s.cpu_attribution else [];
    notify = equal rule.severity (lit "critical") || not s.quiet;
  }

  unfoldable pub recovered_event : Rule Double → Double → Sample Double → AlertEvent Double
  recovered_event rule value s = record {
    rule_name = rule.name;
    severity = rule.severity;
    metric = rule.metric;
    kind = lit "recovered";
    value = value;
    threshold = rule.threshold;
    ts = s.now;
    message = format_message rule value false;
    attribution = [];
    notify = equal rule.severity (lit "critical") || not s.quiet;
  }

  -- The branch `if (met)`.
  unfoldable pub on_met :
      Rule Double → Double → Sample Double → RuleState → RuleState × Option (AlertEvent Double)
  on_met rule value s st =
      let held = record st { since = if eqb_ℤ st.since (pos 0) then s.now else st.since } in
      let duration_ok = leb_ℤ rule.duration_seconds (s.now -ℤ held.since) in
      let firing = record held { firing = true } in
      let cooldown_ok =
        eqb_ℤ st.last_fired (pos 0) || leb_ℤ rule.cooldown_seconds (s.now -ℤ st.last_fired) in
      if not duration_ok
      then (held, none)
      else if st.notified || not cooldown_ok
      then (firing, none)
      else (record firing { notified = true; last_fired = s.now }, some (firing_event rule value s))

  -- The branch `else`.
  unfoldable pub on_not_met :
      Rule Double → Double → Sample Double → RuleState → RuleState × Option (AlertEvent Double)
  on_not_met rule value s st =
      let calm = record st { since = pos 0; firing = false } in
      if st.notified
      then (record calm { notified = false }, some (recovered_event rule value s))
      else (calm, none)

  -- The metric is there and satisfies the condition.
  unfoldable pub is_met : Rule Double → Sample Double → Bool
  is_met rule s = elim (lookup rule.metric s.metrics) [
    | none ↦ false
    | some value ↦ condition_met rule.condition value rule.threshold
  ]

  -- The body of the loop of `evaluate`, for one rule and its state.
  unfoldable pub rule_tick :
      Rule Double → Sample Double → RuleState → RuleState × Option (AlertEvent Double)
  unfolding on_met on_not_met is_met firing_event recovered_event
  rule_tick rule s st =
      let value = value_or (lookup rule.metric s.metrics) zero_double in
      if is_met rule s then on_met rule value s st else on_not_met rule value s st

  abbrev pub to_list {ℓ} : {A : Type ℓ} → Option A → List A
  to_list none = []
  to_list (some a) = a ∷ []

  -- The loop, over the rules that are left.
  unfoldable pub evaluate_rules :
      List (Rule Double)
      → Sample Double
      → Dict RuleState
      → Dict RuleState × List (AlertEvent Double)
  evaluate_rules [] s state = (state, [])
  evaluate_rules (rule ∷ rules) s state =
      let (st, event) = rule_tick rule s (value_or (lookup rule.name state) initial) in
      let (state', events) = evaluate_rules rules s (insert rule.name st state) in
      (state', to_list event ++ events)

  unfoldable pub evaluate :
      (ℤ → Tm)
      → AlertEngine Double
      → Dict Double
      → ℤ
      → Text
      → AlertEngine Double × List (AlertEvent Double)
  evaluate localtime engine metrics now cpu_attribution =
      let quiet = in_quiet_hours localtime engine.quiet_hours now in
      let s : Sample Double = record {
        metrics = metrics;
        now = now;
        quiet = quiet;
        cpu_attribution = cpu_attribution;
      } in
      let (state, events) = evaluate_rules engine.rules s engine.state in
      (record engine { state = state }, events)
