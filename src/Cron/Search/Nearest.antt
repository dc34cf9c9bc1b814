-- ===== src/Cron/Search/Nearest.antt =====
-- The two searches find the nearest matching minute, and miss none within their horizon.
use agent_pulse.Base.{
  Bool-cases, ℤ, pos, ◌+ℤ◌, ◌-ℤ◌, rem, ◌≤ℤ◌, ◌<ℤ◌, int_laws, ℕ, zero, suc, ◌+◌, ◌-◌, ◌*◌, ◌/◌, ◌≤◌,
  ◌<◌, ◌≡◌, refl, sym, subst, ◌∙◌, ◌≢◌, inl, inr, Bool, true, false, Option, none, some, arith,
}
use agent_pulse.Base.Scan.{scan, scan-IsFirst, scan-ne-none}
use agent_pulse.Cron.{CronSchedule, Tm, matches}
use agent_pulse.Cron.Search.{max_minutes, search_forward, search_backward, next_after, prev_before}

-- Minute number `m` since the epoch, and the one `k` minutes before it.
abbrev pub minute : ℕ → ℤ
minute m = pos (60 * m)

abbrev pub minute_before : ℕ → ℕ → ℤ
minute_before m k = minute m -ℤ minute k

map_option : (ℕ → ℤ) → Option ℕ → Option ℤ
map_option f none = none
map_option f (some k) = some (f k)

map_option-some :
    (f : ℕ → ℤ) (o : Option ℕ) {r : ℤ}
    → map_option f o ≡ some r
    → (k : ℕ) × (o ≡ some k) × (r ≡ f k)
unfolding map_option
map_option-some f none e = cc
map_option-some f (some k) e = (k, refl, cc)

map_option-none : (f : ℕ → ℤ) (o : Option ℕ) → map_option f o ≡ none → o ≡ none
unfolding map_option
map_option-none f none e = refl
map_option-none f (some k) e = cc

next_minute : (m : ℕ) → minute m +ℤ pos 60 ≡ minute (suc m)
next_minute m = omega int_laws

next_before : (m k : ℕ) → minute_before m k -ℤ pos 60 ≡ minute_before m (suc k)
next_before m k = omega int_laws

module _ (localtime : ℤ → Tm) (schedule : CronSchedule) where
  -- Whether the schedule fires at this time.
  abbrev pub fires : ℤ → Bool
  fires t = matches schedule (localtime t)

  search_forward-scan :
      (n i : ℕ)
      → search_forward localtime schedule n (minute i)
        ≡ map_option minute (scan (λ j. fires (minute j)) n i)
  unfolding search_forward scan map_option
  search_forward-scan zero i = refl
  search_forward-scan (suc n) i = elim (Bool-cases (fires (minute i))) [
    | inl hit ↦ rw (search_forward, scan, hit)
    | inr miss ↦
        rw (search_forward, scan, miss) (rw (next_minute i) (search_forward-scan n (suc i)))
  ]

  search_backward-scan :
      (n m i : ℕ)
      → search_backward localtime schedule n (minute_before m i)
        ≡ map_option (minute_before m) (scan (λ j. fires (minute_before m j)) n i)
  unfolding search_backward scan map_option
  search_backward-scan zero m i = refl
  search_backward-scan (suc n) m i = elim (Bool-cases (fires (minute_before m i))) [
    | inl hit ↦ rw (search_backward, scan, hit)
    | inr miss ↦
        rw (search_backward, scan, miss) (rw (next_before m i) (search_backward-scan n m (suc i)))
  ]

  start_forward : (a : ℕ) → pos a -ℤ rem (pos a) 60 +ℤ pos 60 ≡ minute (suc (a / 60))
  unfolding rem
  start_forward a = omega int_laws

  start_backward : (a : ℕ) → pos a -ℤ rem (pos a) 60 ≡ minute_before (a / 60) 0
  unfolding rem
  start_backward a = omega int_laws

  next_after-scan :
      (a : ℕ)
      → next_after localtime schedule (pos a)
        ≡ map_option minute (scan (λ j. fires (minute j)) max_minutes (suc (a / 60)))
  unfolding next_after
  next_after-scan a = rw (start_forward a) (search_forward-scan max_minutes (suc (a / 60)))

  prev_before-scan :
      (a : ℕ)
      → prev_before localtime schedule (pos a)
        ≡ map_option
            (minute_before (a / 60))
            (scan (λ j. fires (minute_before (a / 60) j)) max_minutes 0)
  unfolding prev_before
  prev_before-scan a = rw (start_backward a) (search_backward-scan max_minutes (a / 60) 0)

  -- The result of `next_after` at a time since the epoch is a matching whole minute, it lies
  -- strictly after that time, and no whole minute in between matches.
  pub next_after-nearest :
      (a : ℕ) (r : ℤ)
      → next_after localtime schedule (pos a) ≡ some r
      → (k : ℕ) × (r ≡ minute k)
        × (a < 60 * k)
        × (fires r ≡ true)
        × ((j : ℕ) → a < 60 * j → j < k → fires (minute j) ≡ false)
  next_after-nearest a r e =
      let (k, found, at) = map_option-some minute _ (sym (next_after-scan a) ∙ e) in
      let f = scan-IsFirst _ max_minutes (suc (a / 60)) k found in
      (
        k,
        at,
        omega (arith, f.from),
        subst (λ t. fires t ≡ true) (sym at) f.passes,
        λ j after before. f.first j (omega arith) before,
      )

  -- A matching whole minute after `a`, at most `max_minutes` minutes on, makes `next_after` succeed.
  pub next_after-ne-none :
      (a k : ℕ)
      → a < 60 * k
      → 60 * k ≤ a + 60 * max_minutes
      → fires (minute k) ≡ true
      → next_after localtime schedule (pos a) ≢ none
  next_after-ne-none a k after near hit e =
      scan-ne-none _ max_minutes (suc (a / 60)) k (omega arith) (omega arith) hit
        (map_option-none minute _ (sym (next_after-scan a) ∙ e))

  back_to : (a q : ℕ) → 60 * q ≤ a → minute_before (a / 60) (a / 60 - q) ≡ minute q
  back_to a q h = omega int_laws

  -- The result of `prev_before` at a time since the epoch is a matching whole minute, it does not
  -- lie after that time, and no whole minute after it up to that time matches.
  pub prev_before-nearest :
      (a : ℕ) (r : ℤ)
      → prev_before localtime schedule (pos a) ≡ some r
      → (k : ℕ) × (r ≡ minute_before (a / 60) k)
        × (r ≤ℤ pos a)
        × (fires r ≡ true)
        × ((q : ℕ) → r <ℤ minute q → 60 * q ≤ a → fires (minute q) ≡ false)
  prev_before-nearest a r e =
      let (k, found, at) =
        map_option-some (minute_before (a / 60)) _ (sym (prev_before-scan a) ∙ e) in
      let f = scan-IsFirst _ max_minutes 0 k found in
      (
        k,
        at,
        rw at (omega int_laws),
        subst (λ t. fires t ≡ true) (sym at) f.passes,
        λ q later le.
            subst (λ t. fires t ≡ false) (back_to a q le)
              (f.first (a / 60 - q) (omega arith) (nearer k q le (rw at at later))),
      )
    where
      nearer : (k q : ℕ) → 60 * q ≤ a → minute_before (a / 60) k <ℤ minute q → a / 60 - q < k
      nearer k q le later = omega int_laws

  -- A matching whole minute at or before `a`, less than `max_minutes` minutes back, makes
  -- `prev_before` succeed.
  pub prev_before-ne-none :
      (a q : ℕ)
      → 60 * q ≤ a
      → a < 60 * q + 60 * max_minutes
      → fires (minute q) ≡ true
      → prev_before localtime schedule (pos a) ≢ none
  prev_before-ne-none a q before near hit e =
      scan-ne-none _ max_minutes 0 (a / 60 - q) (omega arith) (omega arith)
        (subst (λ t. fires t ≡ true) (sym (back_to a q before)) hit)
        (map_option-none (minute_before (a / 60)) _ (sym (prev_before-scan a) ∙ e))
