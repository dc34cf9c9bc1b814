-- ===== src/Ipc/Lines.antt =====
-- socket_server.cpp, the two loops of `serve_connection`: what they read and write does not depend
-- on how the kernel splits it.
use agent_pulse.Base.{
  ◌==◌, ==_iff, ==_refl, Bool-cases, length, take, Text, cut, ℕ, zero, suc, ◌≤◌, ◌≡◌, refl, sym, ap,
  ◌∙◌, ◌⊎◌, inl, inr, none, some, List, [], ◌∷◌, ◌++◌, append_assoc, arith,
}
use agent_pulse.Base.Decimal.{Avoids, cut-append}
use agent_pulse.Ipc.{
  Received, bytes, hung_up, read_interrupted, read_failed, Sent, took, write_interrupted,
  write_failed, drop, all_written, write_all,
}

-- The bytes of the reads, up to the end of the stream or an error.
unfoldable pub received : List Received → Text
received [] = []
received (bytes b ∷ reads) = b ++ received reads
received (read_interrupted ∷ reads) = received reads
received (hung_up ∷ reads) = []
received (read_failed e ∷ reads) = []

-- The text has no `c`, or it is cut at its first.
abbrev pub Cut : ℕ → Text → Type 0
Cut c t =
    ((cut c t ≡ none) × Avoids c t)
    ⊎ ((a : Text) × (b : Text) × (cut c t ≡ some (a, b)) × Avoids c a × (t ≡ a ++ c ∷ b))

pub Cut-cases : (c : ℕ) (t : Text) → Cut c t
unfolding cut
Cut-cases c [] = inl (refl, tt)
Cut-cases c (x ∷ t) = elim (Bool-cases (x == c)) [
  | inl same ↦ inr ([], t, rw same refl, tt, ap (λ y. y ∷ t) ((==_iff x c).0 same))
  | inr other ↦ elim (Cut-cases c t) [
    | inl (e, av) ↦ inl (rw (other, e) refl, (other, av))
    | inr (a, b, e, av, whole) ↦ inr (x ∷ a, b, rw (other, e) refl, (other, av), ap (◌∷◌ x) whole)
  ]
]

-- A text is cut at a `c` in one way only.
cut_once :
    (c : ℕ) (a b a' b' : Text) → Avoids c a → Avoids c a' → a ++ c ∷ b ≡ a' ++ c ∷ b' → a ≡ a'
cut_once c a b a' b' h h' e = cc (cut-append c a b h, cut-append c a' b' h', ap (cut c) e)

-- The first line of a text is that of every text it begins.
pub first_line :
    (c : ℕ) (a line b t more rest : Text)
    → Avoids c a
    → Avoids c line
    → t ≡ a ++ c ∷ b
    → t ++ more ≡ line ++ c ∷ rest
    → a ≡ line
first_line c a line b t more rest av av' whole e =
    cut_once c a (b ++ more) line rest av av'
      (sym (append_assoc a (c ∷ b) more) ∙ ap (λ u. u ++ more) (sym whole) ∙ e)

tail_eq : {x y : ℕ} {t u : Text} → ◌≡◌ {A = Text} (x ∷ t) (y ∷ u) → t ≡ u
tail_eq e = cc

-- A text without `c` that begins another one ends before its first `c`.
pub shorter : (c : ℕ) (t u a b : Text) → Avoids c t → t ++ u ≡ a ++ c ∷ b → length t ≤ length a
shorter c [] u a b h e = omega arith
shorter c (x ∷ t) u [] b h e = absurd (cc (h.0, e, ==_refl c))
shorter c (x ∷ t) u (y ∷ a) b h e = omega (arith, shorter c t u a b h.1 (tail_eq e))

pub take-drop : (n : ℕ) (t : Text) → take n t ++ drop n t ≡ t
unfolding drop
take-drop zero t = refl
take-drop (suc n) [] = refl
take-drop (suc n) (c ∷ t) = ap (◌∷◌ c) (take-drop n t)

-- What is written is a prefix of the text, and all of it if the loop ends well.
pub write_all_prefix :
    (t : Text) (writes : List Sent)
    → (unsent : Text) × ((write_all t writes).0 ++ unsent ≡ t)
      × ((write_all t writes).1 ≡ all_written → unsent ≡ [])
unfolding write_all
write_all_prefix [] writes = ([], refl, λ e. refl)
write_all_prefix (c ∷ t) [] = (c ∷ t, refl, λ e. cc)
write_all_prefix (c ∷ t) (write_interrupted ∷ writes) = write_all_prefix (c ∷ t) writes
write_all_prefix (c ∷ t) (write_failed why ∷ writes) = (c ∷ t, refl, λ e. cc)
write_all_prefix (c ∷ t) (took n ∷ writes) =
    let (unsent, joined, ended) = write_all_prefix (drop n (c ∷ t)) writes in
    (
      unsent,
      append_assoc (take n (c ∷ t)) (write_all (drop n (c ∷ t)) writes).0 unsent
          ∙ ap (◌++◌ (take n (c ∷ t))) joined
          ∙ take-drop n (c ∷ t),
      ended,
    )
