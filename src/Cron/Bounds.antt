-- ===== src/Cron/Bounds.antt =====
-- What a parsed schedule holds, whatever text it was parsed from (cron.cpp, `parse_field` and
-- `CronSchedule::parse`).
use agent_pulse.Base.{
  if◌then◌else◌, Bool-cases, ℤ, pos, pos_part, ltb_ℤ, Text, lit, equal, is_empty, getlines, words,
  ℕ, ◌≤◌, ◌≡◌, refl, subst, ◌≢◌, inl, inr, Bool, true, ◌||◌, none, List, [], ◌∷◌, arith,
}
use agent_pulse.Cron.{
  Parsed, parsed, malformed, overflow, ◌>>=◌, FieldRange, member, split_step, base_range,
  insert_range, parse_token, parse_tokens, parse_field, CronSchedule, minute_range, hour_range,
  day_range, month_range, weekday_range, normalize_sunday, parse_parts, parse,
}
use agent_pulse.Cron.Sets.{member-set_insert, insert_steps_sound, set_insert-ne-nil}

pub >>=-eq-parsed {ℓ κ} :
    {A : Type ℓ} {B : Type κ} (m : Parsed A) (f : A → Parsed B) {b : B}
    → (m >>= f) ≡ parsed b
    → (a : A) × (m ≡ parsed a) × (f a ≡ parsed b)
>>=-eq-parsed (parsed a) f h = (a, refl, h)
>>=-eq-parsed malformed f h = cc
>>=-eq-parsed overflow f h = cc

pub of_parsed {ℓ} : {A : Type ℓ} {a b : A} → parsed a ≡ parsed b → a ≡ b
of_parsed h = cc

-- All values of the set lie in the range.
abbrev pub Within : FieldRange → List ℕ → Type 0
Within range s = (u : ℕ) → member u s ≡ true → (range.lo ≤ u) × (u ≤ range.hi)

insert_range-Within :
    (range : FieldRange) (out : List ℕ) (lo hi step : ℤ) {s : List ℕ}
    → insert_range range out lo hi step ≡ parsed s
    → Within range out
    → Within range s
unfolding insert_range
insert_range-Within range out lo hi step {s} e w u m =
    elim (Bool-cases (ltb_ℤ lo (pos range.lo) || ltb_ℤ (pos range.hi) hi || ltb_ℤ hi lo)) [
      | inl outside ↦ ground arith
      | inr inside ↦
          elim (insert_steps_sound _ (pos_part lo) (pos_part hi) (pos_part step) out u
            (rw inside at e) m) [
              | inl old ↦ w u old
              | inr (k, at, le) ↦ (ground arith, ground arith)
            ]
    ]

parse_token-Within :
    (range : FieldRange) (out : List ℕ) (token : Text) {s : List ℕ}
    → parse_token range out token ≡ parsed s
    → Within range out
    → Within range s
unfolding parse_token
parse_token-Within range out [] e w = cc
parse_token-Within range out (c ∷ token) e w =
    let (p, _, e1) = >>=-eq-parsed (split_step (c ∷ token)) _ e in
    let (q, _, e2) = >>=-eq-parsed (base_range range p.0) _ e1 in
    insert_range-Within range out q.0 q.1 p.1 e2 w

parse_tokens-Within :
    (range : FieldRange) (out : List ℕ) (tokens : List Text) {s : List ℕ}
    → parse_tokens range out tokens ≡ parsed s
    → Within range out
    → Within range s
unfolding parse_tokens
parse_tokens-Within range out [] e w = subst (Within range) (ground arith) w
parse_tokens-Within range out (token ∷ tokens) e w =
    let (out', e1, e2) = >>=-eq-parsed (parse_token range out token) _ e in
    parse_tokens-Within range out' tokens e2 (parse_token-Within range out token e1 w)

nothing-Within : (range : FieldRange) → Within range []
unfolding member
nothing-Within range u m = cc

-- A parsed field is a non-empty set of values of its range.
pub parse_field-Within :
    (range : FieldRange) (field : Text) {s : List ℕ} {wild : Bool}
    → parse_field range field ≡ parsed (s, wild)
    → Within range s × (s ≢ [])
unfolding parse_field
parse_field-Within range field {s} {wild} e =
    let (out, e1, e2) = >>=-eq-parsed (parse_tokens range [] (getlines b',' none field)) _ e in
    let same = stored out e2 in
    (
      subst (Within range) same.0
          (parse_tokens-Within range [] (getlines b',' none field) e1 (nothing-Within range)),
      same.1,
    )
  where
    stored :
        (out : List ℕ)
        → ◌≡◌ {A = Parsed (List ℕ × Bool)}
            (if is_empty out then malformed else parsed (out, equal field (lit "*")))
            (parsed (s, wild))
        → (out ≡ s) × (s ≢ [])
    stored [] h = cc
    stored (x ∷ out) h = (cc, λ n. cc)

pub record IsSchedule (s : CronSchedule) : Type 0 where
  pub minutes_ok : Within minute_range s.minutes × (s.minutes ≢ [])
  pub hours_ok : Within hour_range s.hours × (s.hours ≢ [])
  pub days_ok : Within day_range s.days × (s.days ≢ [])
  pub months_ok : Within month_range s.months × (s.months ≢ [])
  pub weekdays_ok : Within weekday_range s.weekdays × (s.weekdays ≢ [])
  pub sunday_ok : member 7 s.weekdays ≡ true → member 0 s.weekdays ≡ true

normalize_sunday_ok :
    (s : List ℕ)
    → Within weekday_range s × (s ≢ [])
    → let t = normalize_sunday s in
      Within weekday_range t × (t ≢ []) × (member 7 t ≡ true → member 0 t ≡ true)
unfolding normalize_sunday
normalize_sunday_ok s (w, ne) = elim (Bool-cases (member 7 s)) [
  | inr no7 ↦ rw no7 (w, ne, λ m. ground arith)
  | inl has7 ↦ rw has7 (
    (λ u m. ground (arith, member-set_insert u 0 s, w u)),
    (λ e. set_insert-ne-nil 0 s e),
    λ m. ground (arith, member-set_insert 0 0 s),
  )
]

parse_parts-IsSchedule :
    (parts : List Text) {s : CronSchedule} → parse_parts parts ≡ parsed s → IsSchedule s
unfolding parse_parts
parse_parts-IsSchedule (a ∷ b ∷ c ∷ d ∷ x ∷ []) e =
    let (m, e1, r1) = >>=-eq-parsed (parse_field minute_range a) _ e in
    let (h, e2, r2) = >>=-eq-parsed (parse_field hour_range b) _ r1 in
    let (dom, e3, r3) = >>=-eq-parsed (parse_field day_range c) _ r2 in
    let (mon, e4, r4) = >>=-eq-parsed (parse_field month_range d) _ r3 in
    let (dow, e5, r5) = >>=-eq-parsed (parse_field weekday_range x) _ r4 in
    let (w, ne, sunday) =
      normalize_sunday_ok dow.0
        (parse_field-Within weekday_range x {s = dow.0} {wild = dow.1} e5) in
    subst IsSchedule (of_parsed r5) (record {
      minutes_ok = parse_field-Within minute_range a {s = m.0} {wild = m.1} e1;
      hours_ok = parse_field-Within hour_range b {s = h.0} {wild = h.1} e2;
      days_ok = parse_field-Within day_range c {s = dom.0} {wild = dom.1} e3;
      months_ok = parse_field-Within month_range d {s = mon.0} {wild = mon.1} e4;
      weekdays_ok = (w, ne);
      sunday_ok = sunday;
    })
parse_parts-IsSchedule _ e = cc

-- Every schedule that `CronSchedule::parse` returns has five non-empty sets, each within the range
-- of its field, and its weekdays have 0 whenever they have 7.
pub parse-IsSchedule : (expr : Text) {s : CronSchedule} → parse expr ≡ parsed s → IsSchedule s
unfolding parse
parse-IsSchedule expr e = parse_parts-IsSchedule (words none expr) e
