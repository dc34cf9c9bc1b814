-- ===== src/State/Ring.antt =====
-- The alerts of `SharedState` are a bounded history (shared_state.hpp, `add_alert`).
use agent_pulse.Base.{
  ltb, Bool-cases, length, take, take_all, ℕ, zero, suc, ◌≤◌, ◌≡◌, refl, sym, ap, ◌∙◌, inl, inr,
  List, [], ◌∷◌, ◌++◌, arith,
}
use agent_pulse.State.{AlertInfo, SharedState, add_alert}

module _ {D : Type 0} where
  -- The alerts of the list are added, its last one first.
  pub add_alerts : ℕ → List (AlertInfo D) → SharedState D → SharedState D
  add_alerts cap [] st = st
  add_alerts cap (a ∷ new) st = add_alert a cap (add_alerts cap new st)

  pub take-take :
      (n : ℕ) (x : AlertInfo D) (xs : List (AlertInfo D)) → take n (x ∷ take n xs) ≡ take n (x ∷ xs)
  take-take zero x xs = refl
  take-take (suc n) x xs = ap (◌∷◌ x) (shorter n xs)
    where
      shorter : (n : ℕ) (xs : List (AlertInfo D)) → take n (take (suc n) xs) ≡ take n xs
      shorter zero xs = refl
      shorter (suc n) [] = refl
      shorter (suc n) (y ∷ ys) = ap (◌∷◌ y) (shorter n ys)

  pub add_alert-take :
      (a : AlertInfo D) (cap : ℕ) (st : SharedState D)
      → (add_alert a cap st).alerts ≡ take cap (a ∷ st.alerts)
  unfolding add_alert
  add_alert-take a cap st = elim (Bool-cases (ltb cap (length (a ∷ st.alerts)))) [
    | inl longer ↦ rw longer
    | inr fits ↦ rw fits (sym (take_all cap (a ∷ st.alerts) (ground arith)))
  ]

  -- Whatever alerts are added, the list holds the newest `cap` of all, newest first; it started
  -- with at most `cap`.
  pub add_alerts-take :
      (cap : ℕ) (new : List (AlertInfo D)) (st : SharedState D)
      → length st.alerts ≤ cap
      → (add_alerts cap new st).alerts ≡ take cap (new ++ st.alerts)
  unfolding add_alerts
  add_alerts-take cap [] st h = sym (take_all cap st.alerts h)
  add_alerts-take cap (a ∷ new) st h =
      add_alert-take a cap (add_alerts cap new st)
      ∙ ap (λ l. take cap (a ∷ l)) (add_alerts-take cap new st h)
      ∙ take-take cap a (new ++ st.alerts)
