-- ===== src/Base/Decimal.antt =====
-- Reading back what `std::to_string` prints, and how the other text functions pass over digits.
use Prim.Native.Nat.{ℕ, zero, suc, ◌+◌, ◌*◌, ◌/◌, ◌%◌, ◌≤◌, ◌<◌}
use mathlib.Core.Path.{◌≡◌, refl, ap, subst, ◌∙◌}
use mathlib.Core.Logic.{◌≢◌, inl, inr}
use mathlib.Core.Bool.{true, false}
use mathlib.Core.Option.{Option, none, some}
use mathlib.Core.List.{[], ◌∷◌, ◌++◌, append_assoc, append-nil}
use native.Mathlib.Omega.{arith}
use agent_pulse.Base.Tests.{ltb, ◌==◌, value_or, le→leb, ltb→lt, ==_refl, Bool-cases}
use agent_pulse.Base.Lists.{All}
use agent_pulse.Base.Int.{pos}
use agent_pulse.Base.Texts.{Text}
use agent_pulse.Base.Streams.{
  getlines, cut, is_digit, digits_value, int_max, to_int, stoi, decimal_digits, decimal,
}

abbrev pub IsDigits : Text → Type 0
IsDigits t = All (λ c. is_digit c ≡ true) t

-- `c` does not occur in the text.
abbrev pub Avoids : ℕ → Text → Type 0
Avoids c t = All (λ x. (x == c) ≡ false) t

All-append : (P : ℕ → Type 0) (a b : Text) → All P a → All P b → All P (a ++ b)
All-append P [] b h k = k
All-append P (x ∷ a) b h k = (h.0, All-append P a b h.1 k)

pub Avoids-append : (c : ℕ) (a b : Text) → Avoids c a → Avoids c b → Avoids c (a ++ b)
Avoids-append c = All-append (λ x. (x == c) ≡ false)

digit_of : (d : ℕ) → d < 10 → is_digit (b'0' + d) ≡ true
digit_of d h = ground arith

decimal_digits-IsDigits : (f n : ℕ) → IsDigits (decimal_digits f n)
unfolding decimal_digits
decimal_digits-IsDigits zero n = tt
decimal_digits-IsDigits (suc f) n = elim (Bool-cases (ltb n 10)) [
  | inl small ↦ rw small (digit_of n (ltb→lt n 10 small), tt)
  | inr large ↦ rw large (
      All-append (λ c. is_digit c ≡ true) _ _ (decimal_digits-IsDigits f (n / 10))
        (digit_of (n % 10) (omega arith), tt))
]

digits_value-digit :
    (acc : Option ℕ) (d : ℕ) (cs : Text) (n : ℕ)
    → d < 10
    → n ≡ value_or acc 0 * 10 + d
    → digits_value acc ((b'0' + d) ∷ cs) ≡ digits_value (some n) cs
unfolding digits_value
digits_value-digit acc d cs n h e =
    rw (digits_value, digit_of d h) (ap (λ k. digits_value (some k) cs) (omega arith))

digits_value-decimal_digits :
    (f n : ℕ) (rest : Text)
    → n < f
    → digits_value none (decimal_digits f n ++ rest) ≡ digits_value (some n) rest
unfolding decimal_digits
digits_value-decimal_digits zero n rest h = absurd (omega arith)
digits_value-decimal_digits (suc f) n rest h = elim (Bool-cases (ltb n 10)) [
  | inl small ↦ rw small (digits_value-digit none n rest n (ltb→lt n 10 small) (omega arith))
  | inr large ↦ rw large (
      rw append_assoc (
        digits_value-decimal_digits f (n / 10) ((b'0' + n % 10) ∷ rest) (ground arith)
        ∙ digits_value-digit (some (n / 10)) (n % 10) rest n (omega arith) (omega arith)))
]

-- Text that does not go on with a digit.
abbrev pub EndsNumber : Text → Type 0
EndsNumber [] = Unit
EndsNumber (c ∷ cs) = is_digit c ≡ false

digits_value_end : (n : ℕ) (rest : Text) → EndsNumber rest → digits_value (some n) rest ≡ some n
unfolding digits_value
digits_value_end n [] h = refl
digits_value_end n (c ∷ cs) h = rw (digits_value, h)

pub decimal-IsDigits : (n : ℕ) → IsDigits (decimal n)
unfolding decimal
decimal-IsDigits n = decimal_digits-IsDigits (suc n) n

pub digits_value-decimal :
    (n : ℕ) (rest : Text) → EndsNumber rest → digits_value none (decimal n ++ rest) ≡ some n
unfolding decimal
digits_value-decimal n rest h =
    digits_value-decimal_digits (suc n) n rest (omega arith) ∙ digits_value_end n rest h

-- A byte that is no digit does not occur among digits.
pub IsDigits-Avoids : (c : ℕ) (t : Text) → is_digit c ≡ false → IsDigits t → Avoids c t
IsDigits-Avoids c [] h d = tt
IsDigits-Avoids c (x ∷ t) h d = (ground arith, IsDigits-Avoids c t h d.1)

nothing_read : {n : ℕ} → digits_value none [] ≡ some n → ⊥
unfolding digits_value
nothing_read h = cc

-- The first byte of a printed number.
pub decimal-cons : (n : ℕ) → (c : ℕ) × (t : Text) × (decimal n ≡ c ∷ t) × (is_digit c ≡ true)
unfolding decimal
decimal-cons n = first (decimal n) refl (digits_value-decimal n [] tt) (decimal-IsDigits n)
  where
    first :
        (t : Text)
        → decimal n ≡ t
        → digits_value none (decimal n ++ []) ≡ some n
        → IsDigits (decimal n)
        → (c : ℕ) × (u : Text) × (decimal n ≡ c ∷ u) × (is_digit c ≡ true)
    first [] e v d = absurd (nothing_read (subst (λ u. digits_value none (u ++ []) ≡ some n) e v))
    first (c ∷ u) e v d = (c, u, e, (subst IsDigits e d).0)

stoi_digit :
    (c : ℕ) (t : Text) → is_digit c ≡ true → stoi (c ∷ t) ≡ to_int false (digits_value none (c ∷ t))
unfolding stoi
stoi_digit c t h = ground arith

-- `std::stoi` reads back a number that fits `int`, whatever follows its digits.
pub stoi-decimal :
    (n : ℕ) (rest : Text) → n ≤ int_max → EndsNumber rest → stoi (decimal n ++ rest) ≡ some (pos n)
stoi-decimal n rest small h =
    let (c, t, e, d) = decimal-cons n in
    rw e (
      stoi_digit c (t ++ rest) d
      ∙ subst (λ u. to_int false (digits_value none (u ++ rest)) ≡ some (pos n)) e
          (rw (digits_value-decimal n rest h) (unfold to_int in rw (le→leb n int_max small))))

pub cut-none : (c : ℕ) (t : Text) → Avoids c t → cut c t ≡ none
unfolding cut
cut-none c [] h = refl
cut-none c (x ∷ t) h = rw (cut, h.0) (rw (cut-none c t h.1))

pub cut-append : (c : ℕ) (a b : Text) → Avoids c a → cut c (a ++ c ∷ b) ≡ some (a, b)
unfolding cut
cut-append c [] b h = rw (cut, ==_refl c)
cut-append c (x ∷ a) b h = rw (cut, h.0) (rw (cut-append c a b h.1))

getlines_open :
    (d : ℕ) (w a rest : Text)
    → Avoids d a
    → getlines d (some w) (a ++ d ∷ rest) ≡ (w ++ a) ∷ getlines d none rest
unfolding getlines
getlines_open d w [] rest h = rw (getlines, ==_refl d) (rw append-nil)
getlines_open d w (x ∷ a) rest h =
    rw (getlines, h.0) (getlines_open d (w ++ x ∷ []) a rest h.1 ∙ rw append_assoc)

-- A text with no delimiter is one line.
pub getlines-append :
    (d : ℕ) (a rest : Text)
    → Avoids d a
    → getlines d none (a ++ d ∷ rest) ≡ a ∷ getlines d none rest
unfolding getlines
getlines-append d [] rest h = rw (getlines, ==_refl d)
getlines-append d (x ∷ a) rest h = rw (getlines, h.0) (getlines_open d (x ∷ []) a rest h.1)

getlines_end : (d : ℕ) (w a : Text) → Avoids d a → getlines d (some w) a ≡ (w ++ a) ∷ []
unfolding getlines
getlines_end d w [] h = rw append-nil
getlines_end d w (x ∷ a) h =
    rw (getlines, h.0) (getlines_end d (w ++ x ∷ []) a h.1 ∙ rw append_assoc)

pub getlines_one : (d : ℕ) (a : Text) → Avoids d a → a ≢ [] → getlines d none a ≡ a ∷ []
unfolding getlines
getlines_one d [] h ne = absurd (ne refl)
getlines_one d (x ∷ a) h ne = rw (getlines, h.0) (getlines_end d (x ∷ []) a h.1)
