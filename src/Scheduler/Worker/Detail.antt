-- ===== src/Scheduler/Worker/Detail.antt =====
-- scheduler.cpp, `worker`: the detail of a failure is one short line.
use agent_pulse.Base.{
  ltb, ◌==◌, if◌then◌else◌, Bool-cases, length, take, All, length-append, length-take, Text, lit, ℕ,
  zero, suc, ◌≤◌, ◌≡◌, refl, inl, inr, false, [], ◌∷◌, ◌++◌, arith,
}
use agent_pulse.Scheduler.Worker.{trim_end, last_line, detail_of}

-- No byte of the text is `c`.
abbrev pub Without : ℕ → Text → Type 0
Without c = All (λ b. (b == c) ≡ false)

Without-concat : (c b : ℕ) (t : Text) → Without c t → (b == c) ≡ false → Without c (t ++ b ∷ [])
Without-concat c b [] h e = (e, tt)
Without-concat c b (x ∷ t) h e = (h.0, Without-concat c b t h.1 e)

Without-append : (c : ℕ) (a b : Text) → Without c a → Without c b → Without c (a ++ b)
Without-append c [] b h k = k
Without-append c (x ∷ a) b h k = (h.0, Without-append c a b h.1 k)

Without-take : (c n : ℕ) (t : Text) → Without c t → Without c (take n t)
Without-take c zero t h = tt
Without-take c (suc n) [] h = tt
Without-take c (suc n) (x ∷ t) h = (h.0, Without-take c n t h.1)

last_line-Without : (line t : Text) → Without b'\n' line → Without b'\n' (last_line line t)
unfolding last_line
last_line-Without line [] h = h
last_line-Without line (c ∷ t) h = elim (Bool-cases (c == b'\n')) [
  | inl new ↦ rw new (last_line-Without [] t tt)
  | inr same ↦ rw same (last_line-Without (line ++ c ∷ []) t (Without-concat b'\n' c line h same))
]

dots-Without : Without b'\n' (lit "...")
unfolding lit
dots-Without = (refl, (refl, (refl, tt)))

dots-length : length (lit "...") ≡ 3
unfolding lit
dots-length = refl

-- The detail of a failure has at most 160 bytes and no newline, whatever the command wrote.
pub detail_of-Line : (err : Text) → (length (detail_of err) ≤ 160) × Without b'\n' (detail_of err)
unfolding detail_of
detail_of-Line err = go (last_line [] (trim_end err)) (last_line-Without [] (trim_end err) tt)
  where
    go :
        (t : Text)
        → Without b'\n' t
        → (length (if ltb 160 (length t) then take 157 t ++ lit "..." else t) ≤ 160)
          × Without b'\n' (if ltb 160 (length t) then take 157 t ++ lit "..." else t)
    go t h = elim (Bool-cases (ltb 160 (length t))) [
      | inl long ↦ rw long (
        omega (arith, length-append (take 157 t) (lit "..."), length-take 157 t, dots-length),
        Without-append b'\n' (take 157 t) (lit "...") (Without-take b'\n' 157 t h) dots-Without,
      )
      | inr short ↦ rw short (ground arith, h)
    ]
