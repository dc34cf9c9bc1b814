-- ===== src/Cron/Sets.antt =====
-- The sets of a field (cron.cpp, `std::set<int>` and the innermost loop of `parse_field`).
use agent_pulse.Base.{
  leb, ◌==◌, Bool-cases, int_max, ℕ, zero, suc, ◌+◌, ◌*◌, ◌≤◌, ◌<◌, ◌≡◌, refl, ◌≢◌, ◌⊎◌, inl, inr,
  true, ◌||◌, List, [], ◌∷◌, arith,
}
use agent_pulse.Cron.{parsed, set_insert, member, insert_steps}

pub member-set_insert : (u v : ℕ) (s : List ℕ) → member u (set_insert v s) ≡ (u == v || member u s)
unfolding member set_insert
member-set_insert u v [] = refl
member-set_insert u v (x ∷ s) = ground (arith, member-set_insert u v s)

-- What the loop from `v` up to `hi` visits.
abbrev pub Visits : ℕ → ℕ → ℕ → ℕ → Type 0
Visits v hi step u = (k : ℕ) × (u ≡ v + k * step) × (u ≤ hi)

Visits-next : (v hi step u : ℕ) → Visits (v + step) hi step u → Visits v hi step u
Visits-next v hi step u (k, e, h) = (suc k, omega arith, h)

Visits-cases : (v hi step u : ℕ) → Visits v hi step u → (u ≡ v) ⊎ Visits (v + step) hi step u
Visits-cases v hi step u (zero, e, h) = inl (omega arith)
Visits-cases v hi step u (suc k, e, h) = inr (k, omega arith, h)

-- The loop adds only what it visits.
pub insert_steps_sound :
    (f v hi step : ℕ) (out : List ℕ) {s : List ℕ} (u : ℕ)
    → insert_steps f v hi step out ≡ parsed s
    → member u s ≡ true
    → (member u out ≡ true) ⊎ Visits v hi step u
unfolding insert_steps
insert_steps_sound zero v hi step out u e m = inl (ground arith)
insert_steps_sound (suc f) v hi step out u e m = elim (Bool-cases (leb v hi)) [
  | inr past ↦ inl (ground arith)
  | inl inside ↦
      elim (insert_steps_sound f (v + step) hi step (set_insert v out) u (ground arith) m) [
        | inr later ↦ inr (Visits-next v hi step u later)
        | inl now ↦ elim (Bool-cases (u == v)) [
          | inl same ↦ inr (0, ground arith, ground arith)
          | inr other ↦ inl (ground (arith, member-set_insert u v out))
        ]
      ]
]

-- With enough fuel it adds all that it visits, and keeps what was there.
pub insert_steps_complete :
    (f v hi step : ℕ) (out : List ℕ) {s : List ℕ} (u : ℕ)
    → insert_steps f v hi step out ≡ parsed s
    → hi < v + f
    → 0 < step
    → (member u out ≡ true) ⊎ Visits v hi step u
    → member u s ≡ true
unfolding insert_steps
insert_steps_complete zero v hi step out u e h p (inl m) = ground arith
insert_steps_complete zero v hi step out u e h p (inr (k, at, le)) = absurd (omega arith)
insert_steps_complete (suc f) v hi step out u e h p m = elim (Bool-cases (leb v hi)) [
  | inr past ↦ elim m [ inl old ↦ ground arith | inr (k, at, le) ↦ absurd (ground arith) ]
  | inl inside ↦
      insert_steps_complete f (v + step) hi step (set_insert v out) u (ground arith) (omega arith) p
        (kept m)
]
  where
    kept :
        (member u out ≡ true) ⊎ Visits v hi step u
        → (member u (set_insert v out) ≡ true) ⊎ Visits (v + step) hi step u
    kept (inl old) = inl (ground (arith, member-set_insert u v out))
    kept (inr visit) = elim (Visits-cases v hi step u visit) [
      | inl same ↦ inl (ground (arith, member-set_insert u v out))
      | inr later ↦ inr later
    ]

-- The addition stays within `int` if the largest value and the step do.
pub insert_steps-total :
    (f v hi step : ℕ) (out : List ℕ)
    → hi + step ≤ int_max
    → (s : List ℕ) × (insert_steps f v hi step out ≡ parsed s)
unfolding insert_steps
insert_steps-total zero v hi step out h = (out, refl)
insert_steps-total (suc f) v hi step out h = elim (Bool-cases (leb v hi)) [
  | inr past ↦ (out, rw past)
  | inl inside ↦
      let (s, e) = insert_steps-total f (v + step) hi step (set_insert v out) h in (s, ground arith)
]

pub set_insert-ne-nil : (v : ℕ) (s : List ℕ) → set_insert v s ≢ []
unfolding set_insert
set_insert-ne-nil v [] e = cc
set_insert-ne-nil v (x ∷ s) e = ground arith

pub member-ne-nil : (v : ℕ) (s : List ℕ) → member v s ≡ true → s ≢ []
unfolding member
member-ne-nil v [] m e = cc
member-ne-nil v (x ∷ s) m e = cc
