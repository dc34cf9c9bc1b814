-- ===== src/Cron.antt =====
-- daemon/src/schedule/cron.hpp and cron.cpp: the parsed schedule, `parse_field`,
-- `CronSchedule::parse` and `matches`. The searches are in Cron/Search.
mod Samples
mod Sets
pub mod Bounds
pub mod Search
pub mod Grammar
use agent_pulse.Base.{
  ltb, leb, ◌==◌, if◌then◌else◌, ℤ, pos, pos_part, ltb_ℤ, leb_ℤ, Text, lit, equal, is_empty,
  getlines, words, cut, int_max, stoi, ℕ, zero, suc, ◌+◌, ◌-◌, Bool, true, false, not, ◌&&◌, ◌||◌,
  Option, none, some, List, [], ◌∷◌,
}

-- A parse ends with a value, with `false` or `nullopt`, or in an `int` addition that overflows,
-- whose effect C++ leaves undefined.
pub data Parsed {ℓ} (A : Type ℓ) : Type ℓ where
  parsed : A → Parsed A
  malformed : Parsed A
  overflow : Parsed A

infixl 5 ◌>>=◌
abbrev pub ◌>>=◌ {ℓ κ} : {A : Type ℓ} {B : Type κ} → Parsed A → (A → Parsed B) → Parsed B
parsed a >>= f = f a
malformed >>= f = malformed
overflow >>= f = overflow

abbrev pub or_malformed {ℓ} : {A : Type ℓ} → Option A → Parsed A
or_malformed none = malformed
or_malformed (some a) = parsed a

pub record FieldRange : Type 0 where
  pub lo : ℕ
  pub hi : ℕ

-- `std::set<int>`: ascending, each value once.
unfoldable pub set_insert : ℕ → List ℕ → List ℕ
set_insert v [] = v ∷ []
set_insert v (x ∷ xs) =
    if ltb v x then v ∷ x ∷ xs else if v == x then x ∷ xs else x ∷ set_insert v xs

-- `count(v) > 0`.
unfoldable pub member : ℕ → List ℕ → Bool
member v [] = false
member v (x ∷ xs) = v == x || member v xs

-- The step of a token, and what stands before its slash.
unfoldable pub split_step : Text → Parsed (Text × ℤ)
split_step token = elim (cut b'/' token) [
  | none ↦ parsed (token, pos 1)
  | some (base, tail) ↦ do
    step ← or_malformed (stoi tail)
    if leb_ℤ step (pos 0) then malformed else parsed (base, step)
]

-- The range that the base of a token names.
unfoldable pub base_range : FieldRange → Text → Parsed (ℤ × ℤ)
base_range range base =
    if equal base (lit "*") then parsed (pos range.lo, pos range.hi) else elim (cut b'-' base) [
      | some (a, b) ↦ do lo ← or_malformed (stoi a); hi ← or_malformed (stoi b); parsed (lo, hi)
      | none ↦ do n ← or_malformed (stoi base); parsed (n, n)
    ]

-- `for (int v = lo; v <= hi; v += step) out.insert(v);` on fuel, one more than `hi - lo`.
unfoldable pub insert_steps : ℕ → ℕ → ℕ → ℕ → List ℕ → Parsed (List ℕ)
insert_steps zero v hi step out = parsed out
insert_steps (suc fuel) v hi step out =
    let rest = insert_steps fuel (v + step) hi step (set_insert v out) in
    if leb v hi then (if ltb int_max (v + step) then overflow else rest) else parsed out

-- The check of the range, and the loop behind it.
unfoldable pub insert_range : FieldRange → List ℕ → ℤ → ℤ → ℤ → Parsed (List ℕ)
insert_range range out lo hi step =
    if ltb_ℤ lo (pos range.lo) || ltb_ℤ (pos range.hi) hi || ltb_ℤ hi lo
    then malformed
    else insert_steps (suc (pos_part hi - pos_part lo)) (pos_part lo) (pos_part hi) (pos_part step)
        out

-- One round of the `while` loop of `parse_field`.
unfoldable pub parse_token : FieldRange → List ℕ → Text → Parsed (List ℕ)
unfolding split_step base_range insert_range
parse_token range out [] = malformed
parse_token range out (c ∷ token) = do
  (base, step) ← split_step (c ∷ token)
  (lo, hi) ← base_range range base
  insert_range range out lo hi step

unfoldable pub parse_tokens : FieldRange → List ℕ → List Text → Parsed (List ℕ)
parse_tokens range out [] = parsed out
parse_tokens range out (token ∷ tokens) = do
  out' ← parse_token range out token
  parse_tokens range out' tokens

-- The set of a field, and whether the field is the wildcard.
unfoldable pub parse_field : FieldRange → Text → Parsed (List ℕ × Bool)
parse_field range field = do
  out ← parse_tokens range [] (getlines b',' none field)
  if is_empty out then malformed else parsed (out, equal field (lit "*"))

pub record CronSchedule : Type 0 where
  pub minutes : List ℕ
  pub hours : List ℕ
  pub days : List ℕ
  pub months : List ℕ
  pub weekdays : List ℕ
  pub dom_wildcard : Bool
  pub dow_wildcard : Bool

-- `kRanges`.
abbrev pub minute_range : FieldRange
minute_range = record { lo = 0; hi = 59 }

abbrev pub hour_range : FieldRange
hour_range = record { lo = 0; hi = 23 }

abbrev pub day_range : FieldRange
day_range = record { lo = 1; hi = 31 }

abbrev pub month_range : FieldRange
month_range = record { lo = 1; hi = 12 }

abbrev pub weekday_range : FieldRange
weekday_range = record { lo = 0; hi = 7 }

-- Sunday may be written 7; `tm_wday` has it as 0.
unfoldable pub normalize_sunday : List ℕ → List ℕ
normalize_sunday s = if member 7 s then set_insert 0 s else s

unfoldable pub parse_parts : List Text → Parsed CronSchedule
parse_parts (a ∷ b ∷ c ∷ d ∷ e ∷ []) = do
  (minutes, _) ← parse_field minute_range a
  (hours, _) ← parse_field hour_range b
  (days, dom_wildcard) ← parse_field day_range c
  (months, _) ← parse_field month_range d
  (weekdays, dow_wildcard) ← parse_field weekday_range e
  parsed (record {
    minutes = minutes;
    hours = hours;
    days = days;
    months = months;
    weekdays = normalize_sunday weekdays;
    dom_wildcard = dom_wildcard;
    dow_wildcard = dow_wildcard;
  })
parse_parts parts = malformed

-- `CronSchedule::parse`; `malformed` is its `nullopt`.
unfoldable pub parse : Text → Parsed CronSchedule
unfolding parse_parts
parse expr = parse_parts (words none expr)

-- The fields of `std::tm` that are read.
pub record Tm : Type 0 where
  pub tm_min : ℕ
  pub tm_hour : ℕ
  pub tm_mday : ℕ
  pub tm_mon : ℕ
  pub tm_wday : ℕ

unfoldable pub matches : CronSchedule → Tm → Bool
matches s tm =
    if not (member tm.tm_min s.minutes)
    then false
    else if not (member tm.tm_hour s.hours)
    then false
    else if not (member (tm.tm_mon + 1) s.months)
    then false
    else if s.dom_wildcard && s.dow_wildcard
    then true
    else if s.dom_wildcard
    then dow_ok
    else if s.dow_wildcard
    then dom_ok
    else dom_ok || dow_ok
  where
    dom_ok : Bool
    dom_ok = member tm.tm_mday s.days

    dow_ok : Bool
    dow_ok = member tm.tm_wday s.weekdays
