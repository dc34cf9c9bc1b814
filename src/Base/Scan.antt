-- ===== src/Base/Scan.antt =====
-- The first index that passes a test, within a number of rounds.
use Prim.Native.Nat.{ℕ, zero, suc, ◌+◌, ◌≤◌, ◌<◌}
use mathlib.Core.Path.{◌≡◌, subst}
use mathlib.Core.Logic.{◌≢◌, inl, inr}
use mathlib.Core.Bool.{Bool, true, false}
use mathlib.Core.Option.{Option, none, some}
use native.Mathlib.Omega.{arith}
use native.Mathlib.Decide.{ℕ_discrete}
use agent_pulse.Base.Tests.{Bool-cases}

unfoldable pub scan : (ℕ → Bool) → ℕ → ℕ → Option ℕ
scan test zero i = none
scan test (suc rounds) i = elim (test i) [ true ↦ some i | false ↦ scan test rounds (suc i) ]

-- The first index from `i` on, among `rounds` many, that passes the test.
pub record IsFirst (test : ℕ → Bool) (rounds i k : ℕ) : Type 0 where
  pub from : i ≤ k
  pub within : k < i + rounds
  pub passes : test k ≡ true
  pub first : (j : ℕ) → i ≤ j → j < k → test j ≡ false

IsFirst-next :
    (test : ℕ → Bool) (rounds i k : ℕ)
    → test i ≡ false
    → IsFirst test rounds (suc i) k
    → IsFirst test (suc rounds) i k
IsFirst-next test rounds i k quiet f = record {
  from = omega (arith, f.from);
  within = omega (arith, f.within);
  passes = f.passes;
  first = λ j a b. elim (ℕ_discrete i j) [
    | yes same ↦ subst (λ x. test x ≡ false) same quiet
    | no other ↦ f.first j (omega arith) b
  ];
}

pub scan-IsFirst :
    (test : ℕ → Bool) (rounds i k : ℕ) → scan test rounds i ≡ some k → IsFirst test rounds i k
unfolding scan
scan-IsFirst test zero i k e = cc
scan-IsFirst test (suc rounds) i k e = elim (Bool-cases (test i)) [
  | inl hit ↦
      let same : i ≡ k = ground arith in
      subst (IsFirst test (suc rounds) i) same (record {
        from = omega arith;
        within = omega arith;
        passes = hit;
        first = λ j a b. absurd (omega arith);
      })
  | inr miss ↦ IsFirst-next test rounds i k miss (scan-IsFirst test rounds (suc i) k (ground arith))
]

-- Every index within the rounds that passes is found, or an earlier one is.
pub scan-ne-none :
    (test : ℕ → Bool) (rounds i j : ℕ)
    → i ≤ j
    → j < i + rounds
    → test j ≡ true
    → scan test rounds i ≢ none
unfolding scan
scan-ne-none test zero i j a b t e = omega arith
scan-ne-none test (suc rounds) i j a b t e = elim (Bool-cases (test i)) [
  | inl hit ↦ ground arith
  | inr miss ↦ elim (ℕ_discrete i j) [
    | yes same ↦ ground arith
    | no other ↦ scan-ne-none test rounds (suc i) j (omega arith) (omega arith) t (ground arith)
  ]
]
