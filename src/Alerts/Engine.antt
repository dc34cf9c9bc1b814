-- ===== src/Alerts/Engine.antt =====
-- `evaluate` as a whole: each rule is served on its own (alert_engine.cpp).
use agent_pulse.Alerts.Episodes.{state_after, event_at}
use agent_pulse.Cron.{Tm}
use agent_pulse.Base.{
  value_or, All, In, ℤ, Text, equal, equal_refl, equal_swap, Dict, lookup, insert, lookup-insert,
  Doubles, ◌≡◌, refl, sym, ap, subst, ◌∙◌, inl, inr, false, List, [], ◌∷◌, ◌++◌, map,
}
use agent_pulse.Config.{Rule, QuietHours}
use agent_pulse.Alerts.{
  AlertEvent, RuleState, initial, AlertEngine, in_quiet_hours, Sample, rule_tick, to_list,
  evaluate_rules, evaluate,
}

module _ (doubles : Doubles) where
  open doubles use {Double}

  -- No rule of the list has this name.
  abbrev pub Fresh : Text → List (Rule Double) → Type 0
  Fresh name = All (λ rule. equal name rule.name ≡ false)

  -- Rule names are pairwise different, as `load_config` demands.
  abbrev pub DistinctRules : List (Rule Double) → Type 0
  DistinctRules [] = Unit
  DistinctRules (rule ∷ rules) = Fresh rule.name rules × DistinctRules rules

  -- The state of a rule in the engine.
  abbrev pub state_of : Text → Dict RuleState → RuleState
  state_of name state = value_or (lookup name state) initial

  -- What the rules emit when each runs from the same states.
  pub events_of_all : List (Rule Double) → Sample Double → Dict RuleState → List (AlertEvent Double)
  events_of_all [] s state = []
  events_of_all (rule ∷ rules) s state =
      to_list doubles (rule_tick doubles rule s (state_of rule.name state)).1
      ++ events_of_all rules s state

  state_of-insert_other :
      (name j : Text) (st : RuleState) (state : Dict RuleState)
      → equal name j ≡ false
      → state_of j (insert name st state) ≡ state_of j state
  state_of-insert_other name j st state h = rw (lookup-insert name j st state) (rw h)

  events_of_all-insert :
      (rules : List (Rule Double)) (s : Sample Double) (name : Text) (st : RuleState)
      (state : Dict RuleState)
      → Fresh name rules
      → events_of_all rules s (insert name st state) ≡ events_of_all rules s state
  unfolding events_of_all
  events_of_all-insert [] s name st state f = refl
  events_of_all-insert (rule ∷ rules) s name st state f =
      rw (state_of-insert_other name rule.name st state f.0)
        (rw (events_of_all-insert rules s name st state f.1))

  evaluate_rules-events :
      (rules : List (Rule Double)) (s : Sample Double) (state : Dict RuleState)
      → DistinctRules rules
      → (evaluate_rules doubles rules s state).1 ≡ events_of_all rules s state
  unfolding evaluate_rules events_of_all
  evaluate_rules-events [] s state d = refl
  evaluate_rules-events (rule ∷ rules) s state d =
      let st = (rule_tick doubles rule s (state_of rule.name state)).0 in
      rw (evaluate_rules-events rules s (insert rule.name st state) d.1)
        (rw (events_of_all-insert rules s rule.name st state d.0))

  -- A name that no rule has keeps its state.
  evaluate_rules_other :
      (rules : List (Rule Double)) (s : Sample Double) (state : Dict RuleState) (name : Text)
      → Fresh name rules
      → state_of name (evaluate_rules doubles rules s state).0 ≡ state_of name state
  unfolding evaluate_rules
  evaluate_rules_other [] s state name f = refl
  evaluate_rules_other (rule ∷ rules) s state name f =
      let st = (rule_tick doubles rule s (state_of rule.name state)).0 in
      evaluate_rules_other rules s (insert rule.name st state) name f.1
      ∙ state_of-insert_other rule.name name st state (equal_swap name rule.name f.0)

  state_of-insert_self :
      (name : Text) (st : RuleState) (state : Dict RuleState)
      → state_of name (insert name st state) ≡ st
  state_of-insert_self name st state = rw (lookup-insert name name st state) (rw (equal_refl name))

  Fresh-In :
      (name : Text) (rules : List (Rule Double)) (rule : Rule Double)
      → Fresh name rules
      → In rule rules
      → equal name rule.name ≡ false
  Fresh-In name [] rule f i = absurd i
  Fresh-In name (first ∷ rules) rule f (inl e) = subst (λ r. equal name r.name ≡ false) (sym e) f.0
  Fresh-In name (first ∷ rules) rule f (inr i) = Fresh-In name rules rule f.1 i

  evaluate_rules-state :
      (rules : List (Rule Double)) (s : Sample Double) (state : Dict RuleState) (rule : Rule Double)
      → DistinctRules rules
      → In rule rules
      → state_of rule.name (evaluate_rules doubles rules s state).0
        ≡ (rule_tick doubles rule s (state_of rule.name state)).0
  unfolding evaluate_rules
  evaluate_rules-state [] s state rule d i = absurd i
  evaluate_rules-state (first ∷ rules) s state rule d (inl e) =
      let st = (rule_tick doubles first s (state_of first.name state)).0 in
      rw e (
        evaluate_rules_other rules s (insert first.name st state) first.name d.0
        ∙ state_of-insert_self first.name st state)
  evaluate_rules-state (first ∷ rules) s state rule d (inr i) =
      let st = (rule_tick doubles first s (state_of first.name state)).0 in
      evaluate_rules-state rules s (insert first.name st state) rule d.1 i
      ∙ ap (λ x. (rule_tick doubles rule s x).0)
          (state_of-insert_other first.name rule.name st state
            (Fresh-In first.name rules rule d.0 i))

  -- One call of `evaluate`, newest first in a list of calls.
  pub record Call : Type 0 where
    pub metrics : Dict Double
    pub now : ℤ
    pub cpu_attribution : Text

  module _ (localtime : ℤ → Tm) (rules : List (Rule Double)) (quiet_hours : QuietHours) where
    -- What a call hands to each rule.
    abbrev pub sample_of : Call → Sample Double
    sample_of c = record {
      metrics = c.metrics;
      now = c.now;
      quiet = in_quiet_hours localtime quiet_hours c.now;
      cpu_attribution = c.cpu_attribution;
    }

    -- The engine after the calls, from `AlertEngine(rules, quiet_hours)`.
    pub engine_after : List Call → AlertEngine Double
    engine_after [] = record { rules = rules; quiet_hours = quiet_hours; state = [] }
    engine_after (c ∷ cs) =
        (evaluate doubles localtime (engine_after cs) c.metrics c.now c.cpu_attribution).0

    engine_after-fixed :
        (cs : List Call)
        → ((engine_after cs).rules ≡ rules) × ((engine_after cs).quiet_hours ≡ quiet_hours)
    unfolding engine_after evaluate
    engine_after-fixed [] = (refl, refl)
    engine_after-fixed (c ∷ cs) = engine_after-fixed cs

    -- What a call does to the states, and what it emits.
    after_call :
        (c : Call) (cs : List Call)
        → let r = evaluate_rules doubles rules (sample_of c) (engine_after cs).state in
          let q = evaluate doubles localtime (engine_after cs) c.metrics c.now c.cpu_attribution in
          (q.0.state ≡ r.0) × (q.1 ≡ r.1)
    unfolding evaluate
    after_call c cs =
        let (same_rules, same_hours) = engine_after-fixed cs in
        (rw (same_rules, same_hours), rw (same_rules, same_hours))

    -- After any calls the engine keeps for each of its rules the state that the rule reaches alone
    -- on the samples of these calls; the rules have pairwise different names.
    pub engine_after-state_after :
        (cs : List Call) (rule : Rule Double)
        → DistinctRules rules
        → In rule rules
        → state_of rule.name (engine_after cs).state ≡ state_after doubles rule (map sample_of cs)
    unfolding engine_after state_after lookup
    engine_after-state_after [] rule d i = refl
    engine_after-state_after (c ∷ cs) rule d i = rw ((after_call c cs).0) (
        evaluate_rules-state rules (sample_of c) (engine_after cs).state rule d i
        ∙ ap (λ x. (rule_tick doubles rule (sample_of c) x).0)
            (engine_after-state_after cs rule d i))

    -- What the rules emit when each runs alone on its history.
    pub events_alone :
        List (Rule Double) → Sample Double → List (Sample Double) → List (AlertEvent Double)
    events_alone [] s h = []
    events_alone (rule ∷ some_rules) s h =
        to_list doubles (event_at doubles rule s h) ++ events_alone some_rules s h

    events_of_all-alone :
        (part : List (Rule Double)) (c : Call) (cs : List Call)
        → DistinctRules rules
        → ((rule : Rule Double) → In rule part → In rule rules)
        → events_of_all part (sample_of c) (engine_after cs).state
          ≡ events_alone part (sample_of c) (map sample_of cs)
    unfolding events_of_all events_alone
    events_of_all-alone [] c cs d sub = refl
    events_of_all-alone (rule ∷ part) c cs d sub =
        rw (engine_after-state_after cs rule d (sub rule (inl refl)))
          (rw (events_of_all-alone part c cs d (λ r i. sub r (inr i))))

    -- Each call emits, in the order of the rules, exactly the events that the rules emit alone on
    -- the samples of the calls so far; the rules have pairwise different names.
    pub evaluate-events_alone :
        (c : Call) (cs : List Call)
        → DistinctRules rules
        → (evaluate doubles localtime (engine_after cs) c.metrics c.now c.cpu_attribution).1
          ≡ events_alone rules (sample_of c) (map sample_of cs)
    evaluate-events_alone c cs d =
        (after_call c cs).1
        ∙ evaluate_rules-events rules (sample_of c) (engine_after cs).state d
        ∙ events_of_all-alone rules c cs d (λ r i. i)
