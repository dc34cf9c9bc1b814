-- ===== src/Monitor/Reports.antt =====
-- main.cpp, one round of `sampler_loop`: where its alerts go.
use agent_pulse.Cron.{Tm}
use agent_pulse.Scheduler.{or_keep}
use agent_pulse.Base.{
  if◌then◌else◌, is_some, Option-cases, length, take, keep_if, length-take, take_all, ℤ, Text,
  Doubles, ℕ, zero, suc, ◌≤◌, ◌≡◌, refl, sym, ap, subst, ◌∙◌, inl, inr, Bool, true, false, not,
  Option, none, some, List, [], ◌∷◌, ◌++◌, map, append_assoc, append-nil, arith,
}
use agent_pulse.Alerts.{AlertEvent, evaluate}
use agent_pulse.State.{AlertInfo, SharedState, alert_cap, set_cpu, set_self, set_system, add_alert}
use agent_pulse.State.Ring.{take-take, add_alert-take}
use agent_pulse.Db.{AlertRecord, Database, c_text, insert_metric, insert_alert}
use agent_pulse.Monitor.{
  Readings, Monitor, Faults, publish, insert_metrics, record_of_event, info_of_event,
  notice_of_event, report_event, report_events, metric_rows, metric_map, attribution_of,
  sample_round,
}

module _ {A : Type 0} where
  -- The items put in front, one after the other.
  pub onto : List A → List A → List A
  onto [] ys = ys
  onto (x ∷ xs) ys = onto xs (x ∷ ys)

module _ {A B : Type 0} where
  map-append : (f : A → B) (xs ys : List A) → map f (xs ++ ys) ≡ map f xs ++ map f ys
  map-append f [] ys = refl
  map-append f (x ∷ xs) ys = ap (◌∷◌ (f x)) (map-append f xs ys)

  keep_split :
      (p : A → Bool) (f : A → B) (a : A) (rest : List A)
      → map f (keep_if p (a ∷ [])) ++ map f (keep_if p rest) ≡ map f (keep_if p (a ∷ rest))
  keep_split p f a rest =
      elim (p a)
        as (λ b.
          map f (if b then a ∷ [] else []) ++ map f (keep_if p rest)
          ≡ map f (if b then a ∷ keep_if p rest else keep_if p rest)) [ true ↦ refl | false ↦ refl ]

-- Two steps that each put something behind a list.
behind : {A : Type 0} (a b c x y z : List A) → a ≡ b ++ x → b ≡ c ++ y → y ++ x ≡ z → a ≡ c ++ z
behind a b c x y z e h k = e ∙ ap (λ l. l ++ x) h ∙ append_assoc c y x ∙ ap (◌++◌ c) k

module _ {D : Type 0} where
  take_again : (n : ℕ) (ys : List (AlertInfo D)) → take n (take n ys) ≡ take n ys
  take_again zero ys = refl
  take_again (suc n) [] = refl
  take_again (suc n) (y ∷ ys) = ap (◌∷◌ y) (take_again n ys)

  take-onto :
      (n : ℕ) (xs ys : List (AlertInfo D)) → take n (onto xs (take n ys)) ≡ take n (onto xs ys)
  unfolding onto
  take-onto n [] ys = take_again n ys
  take-onto n (x ∷ xs) ys =
      sym (take-onto n xs (x ∷ take n ys))
      ∙ ap (λ l. take n (onto xs l)) (take-take n x ys)
      ∙ take-onto n xs (x ∷ ys)

  -- A row of the table but for its number.
  abbrev pub content : AlertRecord D → AlertRecord D
  content r = record r { id = 0 }

  -- The row of an event; the texts end before their first NUL, as SQLite binds them.
  abbrev pub row_of_event : AlertEvent D → AlertRecord D
  row_of_event e = record {
    id = 0;
    ts = e.ts;
    rule_name = c_text e.rule_name;
    severity = c_text e.severity;
    metric = c_text e.metric;
    kind = c_text e.kind;
    value = e.value;
    threshold = e.threshold;
    message = c_text e.message;
    attribution = c_text e.attribution;
  }

  abbrev pub is_stored : (AlertEvent D → Option Text) → AlertEvent D → Bool
  is_stored fault_of e = not (is_some (fault_of e))

  -- What the reports of some events come to.
  pub record Reported (fault_of : AlertEvent D → Option Text) (events : List (AlertEvent D))
      (m m' : Monitor D) : Type 0 where
    pub notified :
        m'.notifications ≡ m.notifications ++ map notice_of_event (keep_if (λ e. e.notify) events)
    pub listed : m'.state.alerts ≡ take alert_cap (onto (map info_of_event events) m.state.alerts)
    pub stored :
        map content m'.db.alerts
        ≡ map content m.db.alerts ++ map row_of_event (keep_if (is_stored fault_of) events)
    pub engine_kept : m'.engine ≡ m.engine

  notified_step :
      (e : AlertEvent D) (sent : List (Text × Text))
      → (if e.notify then sent ++ notice_of_event e ∷ [] else sent)
        ≡ sent ++ map notice_of_event (keep_if (λ x. x.notify) (e ∷ []))
  notified_step e sent =
      elim e.notify
        as (λ b.
          (if b then sent ++ notice_of_event e ∷ [] else sent)
          ≡ sent ++ map notice_of_event (if b then e ∷ [] else [])) [
            | true ↦ refl
            | false ↦ sym (append-nil sent)
          ]

  stored_step :
      (fault : Option Text) (e : AlertEvent D) (db : Database D)
      → map content (or_keep db (insert_alert fault (record_of_event e) db)).alerts
        ≡ map content db.alerts ++ map row_of_event (if not (is_some fault) then e ∷ [] else [])
  unfolding insert_alert record_of_event
  stored_step none e db = map-append content db.alerts _
  stored_step (some why) e db = sym (append-nil (map content db.alerts))

  still_few :
      (e : AlertEvent D) (m : Monitor D)
      → length (add_alert (info_of_event e) alert_cap m.state).alerts ≤ alert_cap
  still_few e m = omega (
    arith,
    ap length (add_alert-take (info_of_event e) alert_cap m.state),
    length-take alert_cap (info_of_event e ∷ m.state.alerts),
  )

  insert_metrics-alerts :
      (fault_of : Text → Option Text) (ts : ℤ) (rows : List (Text × D)) (db : Database D)
      → (insert_metrics fault_of ts rows db).alerts ≡ db.alerts
  unfolding insert_metrics insert_metric
  insert_metrics-alerts fault_of ts [] db = refl
  insert_metrics-alerts fault_of ts ((metric, value) ∷ rows) db =
      elim (Option-cases (fault_of metric)) [
        | inl e ↦ rw (insert_metrics, e) (insert_metrics-alerts fault_of ts rows _)
        | inr (why, e) ↦ rw (insert_metrics, e) refl
      ]

  publish-alerts :
      (zero_value : D) (r : Readings D) (st : SharedState D)
      → (publish zero_value r st).alerts ≡ st.alerts
  unfolding publish set_cpu set_self set_system
  publish-alerts zero_value r st =
      elim r.self_stats.valid
        as (λ b.
          (if b
            then set_self r.self_stats.rss_bytes r.self_stats.cpu_percent
                (set_cpu r.cpu_pct r.ts st)
            else set_cpu r.cpu_pct r.ts st).alerts
          ≡ st.alerts) [ true ↦ refl | false ↦ refl ]

  report_event-Reported :
      (fault_of : AlertEvent D → Option Text) (e : AlertEvent D) (m : Monitor D)
      → Reported fault_of (e ∷ []) m (report_event fault_of e m)
  unfolding report_event onto
  report_event-Reported fault_of e m = record {
    notified = notified_step e m.notifications;
    listed = add_alert-take (info_of_event e) alert_cap m.state;
    stored = stored_step (fault_of e) e m.db;
    engine_kept = refl;
  }

  report_events-Reported :
      (fault_of : AlertEvent D → Option Text) (events : List (AlertEvent D)) (m : Monitor D)
      → length m.state.alerts ≤ alert_cap
      → Reported fault_of events m (report_events fault_of events m)
  unfolding report_events onto
  report_events-Reported fault_of [] m few = record {
    notified = sym (append-nil m.notifications);
    listed = sym (take_all alert_cap m.state.alerts few);
    stored = sym (append-nil (map content m.db.alerts));
    engine_kept = refl;
  }
  report_events-Reported fault_of (e ∷ events) m few =
      let m1 = report_event fault_of e m in
      let first = report_event-Reported fault_of e m in
      let rest = report_events-Reported fault_of events m1 (still_few e m) in
      record {
        notified =
            behind _ m1.notifications m.notifications _ _ _ rest.notified first.notified
              (keep_split (λ x. x.notify) notice_of_event e events);
        listed =
            rest.listed
            ∙ ap (λ l. take alert_cap (onto (map info_of_event events) l)) first.listed
            ∙ take-onto alert_cap (map info_of_event events) (info_of_event e ∷ m.state.alerts);
        stored =
            behind _ (map content m1.db.alerts) (map content m.db.alerts) _ _ _ rest.stored
              first.stored (keep_split (is_stored fault_of) row_of_event e events);
        engine_kept = rest.engine_kept ∙ first.engine_kept;
      }

module _ (doubles : Doubles) (localtime : ℤ → Tm) where
  open doubles use {Double, zero_double}

  -- The events of a round.
  abbrev pub events_of_round : Readings Double → Monitor Double → List (AlertEvent Double)
  events_of_round r m =
      (evaluate doubles localtime m.engine (metric_map doubles r) r.ts
        (attribution_of doubles r.top)).1

  -- What a round does with its events.
  pub record RoundReported (faults : Faults Double) (r : Readings Double) (m m' : Monitor Double)
      : Type 0 where
    pub notified :
        m'.notifications
        ≡ m.notifications ++ map notice_of_event (keep_if (λ e. e.notify) (events_of_round r m))
    pub listed :
        m'.state.alerts
        ≡ take alert_cap (onto (map info_of_event (events_of_round r m)) m.state.alerts)
    pub stored :
        map content m'.db.alerts
        ≡ map content m.db.alerts
          ++ map row_of_event (keep_if (is_stored faults.of_event) (events_of_round r m))

  -- Of the events that a round of the sampler loop gives, and whatever errors SQLite has:
  -- notifications are sent for exactly those that ask for it, in order; the list of recent alerts
  -- is that of the newest 25, newest first; and the table of alerts grows by those whose insertion
  -- does not fail, in order. The list of alerts held at most 25 before.
  pub sample_round-RoundReported :
      (faults : Faults Double) (now : ℕ) (r : Readings Double) (m : Monitor Double)
      → length m.state.alerts ≤ alert_cap
      → RoundReported faults r m (sample_round doubles localtime faults now r m)
  unfolding sample_round
  sample_round-RoundReported faults now r m few =
      let published : Monitor Double = record m {
        state = publish zero_double r m.state;
        db = insert_metrics faults.of_metric r.ts (metric_rows doubles r) m.db;
        engine =
            (evaluate doubles localtime m.engine (metric_map doubles r) r.ts
              (attribution_of doubles r.top)).0;
      } in
      let kept = publish-alerts zero_double r m.state in
      let rows = insert_metrics-alerts faults.of_metric r.ts (metric_rows doubles r) m.db in
      let done =
        report_events-Reported faults.of_event (events_of_round r m) published
          (subst (λ l. length l ≤ alert_cap) (sym kept) few) in
      record {
        notified = done.notified;
        listed =
            done.listed
            ∙ ap (λ l. take alert_cap (onto (map info_of_event (events_of_round r m)) l)) kept;
        stored =
            done.stored
            ∙ ap
                (λ l.
                  map content l
                  ++ map row_of_event (keep_if (is_stored faults.of_event) (events_of_round r m)))
                rows;
      }
