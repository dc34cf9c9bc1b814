-- ===== src/Alerts/Episodes.antt =====
-- The life of one rule over any history of samples (alert_engine.cpp, the loop of `evaluate`).
use agent_pulse.Base.{
  if◌then◌else◌, Bool-cases, All, ℤ, pos, ◌-ℤ◌, ◌≤ℤ◌, ◌<ℤ◌, leb_ℤ, eqb_ℤ, lit, equal, equal_refl,
  Doubles, ◌≡◌, refl, sym, subst, ◌∙◌, ◌≢◌, ◌⊎◌, inl, inr, Bool, true, false, not, ◌||◌, Option,
  some, List, [], ◌∷◌, ◌++◌, arith,
}
use agent_pulse.Config.{Rule}
use agent_pulse.Alerts.{AlertEvent, RuleState, initial, Sample, is_met, rule_tick, to_list}

module _ (doubles : Doubles) (rule : Rule doubles.Double) where
  open doubles use {Double}

  -- A history has its newest sample first.
  abbrev pub History : Type 0
  History = List (Sample Double)

  -- The state of the rule after the history, from a new engine.
  unfoldable pub state_after : History → RuleState
  state_after [] = initial
  state_after (s ∷ h) = (rule_tick doubles rule s (state_after h)).0

  -- The event that the newest sample gave.
  abbrev pub event_at : Sample Double → History → Option (AlertEvent Double)
  event_at s h = (rule_tick doubles rule s (state_after h)).1

  -- All events of the history, newest first.
  unfoldable pub events_of : History → List (AlertEvent Double)
  events_of [] = []
  events_of (s ∷ h) = to_list doubles (event_at s h) ++ events_of h

  -- Firing and recovered events take turns; the oldest is firing, and the newest is as `b` says.
  abbrev pub Alternate : Bool → List (AlertEvent Double) → Type 0
  Alternate b [] = b ≡ false
  Alternate b (e ∷ es) =
      (e.kind ≡ (if b then lit "firing" else lit "recovered")) × Alternate (not b) es

  rule_tick-Alternate :
      (s : Sample Double) (st : RuleState) (es : List (AlertEvent Double))
      → Alternate st.notified es
      → let (st', e) = rule_tick doubles rule s st in
        Alternate st'.notified (to_list doubles e ++ es)
  unfolding rule_tick
  rule_tick-Alternate s st es a = ground arith

  -- Over any history the events of a rule are by turns firing and recovered, the first is firing,
  -- and `notified` says which kind came last.
  pub events_of-Alternate : (h : History) → Alternate (state_after h).notified (events_of h)
  unfolding events_of state_after
  events_of-Alternate [] = refl
  events_of-Alternate (s ∷ h) =
      rule_tick-Alternate s (state_after h) (events_of h) (events_of-Alternate h)

  -- The times of the firing events, newest first.
  unfoldable pub firing_times : List (AlertEvent Double) → List ℤ
  firing_times [] = []
  firing_times (e ∷ es) =
      if equal e.kind (lit "firing") then e.ts ∷ firing_times es else firing_times es

  -- A time lies at least `c` after the newest of the list.
  abbrev pub Apart : ℤ → ℤ → List ℤ → Type 0
  Apart c t [] = Unit
  Apart c t (u ∷ us) = c ≤ℤ t -ℤ u

  abbrev pub Gaps : ℤ → List ℤ → Type 0
  Gaps c [] = Unit
  Gaps c (t ∷ ts) = Apart c t ts × Gaps c ts

  abbrev LastFired : ℤ → List ℤ → Type 0
  LastFired last [] = last ≡ pos 0
  LastFired last (t ∷ ts) = (last ≡ t) × (pos 0 <ℤ t)

  recovered-ne-firing : equal (lit "recovered") (lit "firing") ≡ false
  unfolding equal lit
  recovered-ne-firing = refl

  Apart-ok :
      (c t last : ℤ) (ts : List ℤ)
      → LastFired last ts
      → (eqb_ℤ last (pos 0) || leb_ℤ c (t -ℤ last)) ≡ true
      → Apart c t ts
  Apart-ok c t last [] l h = tt
  Apart-ok c t last (u ∷ us) l h =
      rw (← l.0) (ground (arith, subst (λ x. pos 0 <ℤ x) (sym l.0) l.1))

  rule_tick-Gaps :
      (s : Sample Double) (st : RuleState) (es : List (AlertEvent Double))
      → pos 0 <ℤ s.now
      → LastFired st.last_fired (firing_times es)
      → Gaps rule.cooldown_seconds (firing_times es)
      → let (st', e) = rule_tick doubles rule s st in
        LastFired st'.last_fired (firing_times (to_list doubles e ++ es))
        × Gaps rule.cooldown_seconds (firing_times (to_list doubles e ++ es))
  unfolding rule_tick firing_times
  rule_tick-Gaps s st es p l g = ground (
    arith,
    equal_refl (lit "firing"),
    recovered-ne-firing,
    Apart-ok rule.cooldown_seconds s.now st.last_fired (firing_times es) l,
  )

  events_of-Gaps :
      (h : History)
      → All (λ s. pos 0 <ℤ s.now) h
      → LastFired (state_after h).last_fired (firing_times (events_of h))
        × Gaps rule.cooldown_seconds (firing_times (events_of h))
  unfolding events_of state_after firing_times
  events_of-Gaps [] p = (refl, tt)
  events_of-Gaps (s ∷ h) p =
      let (l, g) = events_of-Gaps h p.1 in rule_tick-Gaps s (state_after h) (events_of h) p.0 l g

  -- Between two firing events of a rule that follow one another there are at least
  -- `cooldown_seconds`, if every sample was taken after the epoch.
  pub firing_times-Gaps :
      (h : History)
      → All (λ s. pos 0 <ℤ s.now) h
      → Gaps rule.cooldown_seconds (firing_times (events_of h))
  firing_times-Gaps h p = (events_of-Gaps h p).1

  -- The newest sample, if there is one, does not satisfy the condition.
  abbrev pub IsCalm : History → Type 0
  IsCalm [] = Unit
  IsCalm (s ∷ h) = is_met doubles rule s ≡ false

  -- The condition holds at the newest samples, back to one taken at `t`, and not before that one.
  pub data Episode (t : ℤ) : History → Type 0 where
    began :
        {s : Sample Double} {h : History}
        → s.now ≡ t
        → is_met doubles rule s ≡ true
        → IsCalm h
        → Episode t (s ∷ h)
    went_on :
        {s : Sample Double} {h : History}
        → is_met doubles rule s ≡ true
        → Episode t h
        → Episode t (s ∷ h)

  abbrev Since : RuleState → History → Type 0
  Since st h = ((st.since ≡ pos 0) × IsCalm h) ⊎ ((pos 0 <ℤ st.since) × Episode st.since h)

  rule_tick_not_met :
      (s : Sample Double) (st : RuleState)
      → is_met doubles rule s ≡ false
      → ((rule_tick doubles rule s st).0.since ≡ pos 0)
        × ((x : AlertEvent Double)
            → (rule_tick doubles rule s st).1 ≡ some x
            → x.kind ≡ lit "recovered")
  unfolding rule_tick
  rule_tick_not_met s st m = (ground arith, λ x e. ground arith)

  rule_tick_met :
      (s : Sample Double) (st : RuleState)
      → is_met doubles rule s ≡ true
      → ((rule_tick doubles rule s st).0.since
          ≡ (if eqb_ℤ st.since (pos 0) then s.now else st.since))
        × ((x : AlertEvent Double)
            → (rule_tick doubles rule s st).1 ≡ some x
            → rule.duration_seconds ≤ℤ s.now -ℤ (rule_tick doubles rule s st).0.since)
  unfolding rule_tick
  rule_tick_met s st m = (ground arith, λ x e. ground arith)

  since_next :
      (s : Sample Double) (h : History) (st : RuleState)
      → pos 0 <ℤ s.now
      → is_met doubles rule s ≡ true
      → Since st h
      → let t = if eqb_ℤ st.since (pos 0) then s.now else st.since in
        (pos 0 <ℤ t) × Episode t (s ∷ h)
  since_next s h st p m (inl (none_yet, calm)) = rw none_yet (p, began refl m calm)
  since_next s h st p m (inr (q, held)) =
      let old : eqb_ℤ st.since (pos 0) ≡ false = ground arith in rw old (q, went_on m held)

  rule_tick-Episode :
      (s : Sample Double) (h : History) (st : RuleState)
      → pos 0 <ℤ s.now
      → is_met doubles rule s ≡ true
      → Since st h
      → let t = (rule_tick doubles rule s st).0.since in (pos 0 <ℤ t) × Episode t (s ∷ h)
  rule_tick-Episode s h st p m w = rw ((rule_tick_met s st m).0) (since_next s h st p m w)

  state_after-Since : (h : History) → All (λ s. pos 0 <ℤ s.now) h → Since (state_after h) h
  unfolding state_after
  state_after-Since [] p = inl (refl, tt)
  state_after-Since (s ∷ h) p = elim (Bool-cases (is_met doubles rule s)) [
    | inl met ↦ inr (rule_tick-Episode s h (state_after h) p.0 met (state_after-Since h p.1))
    | inr unmet ↦ inl ((rule_tick_not_met s (state_after h) unmet).0, unmet)
  ]

  lit-ne : lit "recovered" ≢ lit "firing"
  unfolding lit
  lit-ne e = cc

  -- When a rule fires, its condition has held at every sample since one that was taken at least
  -- `duration_seconds` before, if every sample was taken after the epoch.
  pub event_at-Episode :
      (s : Sample Double) (h : History) (e : AlertEvent Double)
      → All (λ s. pos 0 <ℤ s.now) (s ∷ h)
      → event_at s h ≡ some e
      → e.kind ≡ lit "firing"
      → (t : ℤ) × Episode t (s ∷ h) × (rule.duration_seconds ≤ℤ s.now -ℤ t)
  event_at-Episode s h e p at k = elim (Bool-cases (is_met doubles rule s)) [
    | inl met ↦ (
      (rule_tick doubles rule s (state_after h)).0.since,
      (rule_tick-Episode s h (state_after h) p.0 met (state_after-Since h p.1)).1,
      (rule_tick_met s (state_after h) met).1 e at,
    )
    | inr unmet ↦ absurd (lit-ne (sym ((rule_tick_not_met s (state_after h) unmet).1 e at) ∙ k))
  ]

  rule_tick_silent :
      (s : Sample Double) (st : RuleState)
      → is_met doubles rule s ≡ true
      → (rule_tick doubles rule s st).0.notified ≡ false
      → (s.now -ℤ (rule_tick doubles rule s st).0.since <ℤ rule.duration_seconds)
        ⊎ ((st.last_fired ≢ pos 0) × (s.now -ℤ st.last_fired <ℤ rule.cooldown_seconds))
  unfolding rule_tick
  rule_tick_silent s st m n = ground arith

  -- The newest of the times lies less than `c` before `t`.
  abbrev pub Cooling : ℤ → ℤ → List ℤ → Type 0
  Cooling c t [] = ⊥
  Cooling c t (u ∷ us) = t -ℤ u <ℤ c

  Cooling-ok :
      (c t last : ℤ) (ts : List ℤ)
      → LastFired last ts
      → last ≢ pos 0
      → t -ℤ last <ℤ c
      → Cooling c t ts
  Cooling-ok c t last [] l ne lt = ne l
  Cooling-ok c t last (u ∷ us) l ne lt = subst (λ x. t -ℤ x <ℤ c) l.0 lt

  -- After a sample that satisfies the condition of the rule, either the rule has notified, or the
  -- condition began to hold less than `duration_seconds` ago, or the newest firing event before is
  -- less than `cooldown_seconds` old; if every sample was taken after the epoch.
  pub silent_only_if :
      (s : Sample Double) (h : History)
      → All (λ s. pos 0 <ℤ s.now) (s ∷ h)
      → is_met doubles rule s ≡ true
      → ((state_after (s ∷ h)).notified ≡ true)
        ⊎ (((t : ℤ) × Episode t (s ∷ h) × (s.now -ℤ t <ℤ rule.duration_seconds))
            ⊎ Cooling rule.cooldown_seconds s.now (firing_times (events_of h)))
  unfolding state_after
  silent_only_if s h p m = elim (Bool-cases (rule_tick doubles rule s (state_after h)).0.notified) [
    | inl told ↦ inl told
    | inr silent ↦ elim (rule_tick_silent s (state_after h) m silent) [
      | inl early ↦ inr (
          inl (
            (rule_tick doubles rule s (state_after h)).0.since,
            (rule_tick-Episode s h (state_after h) p.0 m (state_after-Since h p.1)).1,
            early,
          ))
      | inr (ne, lt) ↦ inr (
          inr (
            Cooling-ok rule.cooldown_seconds s.now (state_after h).last_fired
              (firing_times (events_of h)) (events_of-Gaps h p.1).0 ne lt))
    ]
  ]
