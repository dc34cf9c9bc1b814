-- ===== src/Notifier.antt =====
-- daemon/src/alerts/notifier.cpp: the script that `send_notification` hands to `osascript`. What
-- AppleScript does with it is described by `read_literal`.
use agent_pulse.Base.{
  ◌==◌, if◌then◌else◌, Bool-cases, ==_iff, Text, lit, ℕ, ◌≡◌, refl, sym, ap, inl, inr, Bool, true,
  false, ◌||◌, Option, none, some, [], ◌∷◌, ◌++◌, arith,
}

unfoldable pub escape_applescript : Text → Text
escape_applescript [] = []
escape_applescript (c ∷ cs) =
    let rest = escape_applescript cs in
    if c == b'\n'
    then b'\\' ∷ b'n' ∷ rest
    else if c == b'\\' || c == b'"'
    then b'\\' ∷ c ∷ rest
    else c ∷ rest

-- The script of the notification.
unfoldable pub script_of : Text → Text → Text
unfolding escape_applescript
script_of title message =
    lit "display notification \""
    ++ escape_applescript message
    ++ lit "\" with title \""
    ++ escape_applescript title
    ++ lit "\""

add_byte : ℕ → Option (Text × Text) → Option (Text × Text)
add_byte c none = none
add_byte c (some (t, rest)) = some (c ∷ t, rest)

-- A literal behind its opening quote, or behind a backslash in it: the text, and what stands behind
-- the closing quote. A backslash before `n` is a newline, and before another byte it is that byte.
-- None if the literal does not end.
pub read_literal : Bool → Text → Option (Text × Text)
unfolding add_byte
read_literal escaped [] = none
read_literal true (c ∷ cs) = add_byte (if c == b'n' then b'\n' else c) (read_literal false cs)
read_literal false (c ∷ cs) =
    let plain = read_literal false cs in
    let escaped = read_literal true cs in
    if c == b'"' then some ([], cs) else if c == b'\\' then escaped else add_byte c plain

no_n : (c d : ℕ) → (c == d) ≡ true → (d == b'n') ≡ false → (c == b'n') ≡ false
no_n c d h k = ground arith

-- Whatever the text holds, quotes, backslashes and newlines included, its escaped form is read back
-- as the text, and the closing quote behind it ends the literal; so no text can leave its literal in
-- the script.
pub escape_applescript-literal :
    (text rest : Text)
    → read_literal false (escape_applescript text ++ b'"' ∷ rest) ≡ some (text, rest)
unfolding escape_applescript read_literal add_byte
escape_applescript-literal [] rest = refl
escape_applescript-literal (c ∷ text) rest = elim (Bool-cases (c == b'\n')) [
  | inl newline ↦
      rw (newline, escape_applescript-literal text rest)
        (ap (λ x. some (x ∷ text, rest)) (sym ((==_iff c b'\n').0 newline)))
  | inr other ↦ elim (Bool-cases (c == b'\\')) [
    | inl slash ↦ rw (other, slash, no_n c b'\\' slash refl, escape_applescript-literal text rest)
    | inr no_slash ↦ elim (Bool-cases (c == b'"')) [
      | inl quote ↦
          rw (other, no_slash, quote, no_n c b'"' quote refl, escape_applescript-literal text rest)
      | inr plain ↦
          rw (other, no_slash, plain) (rw (plain, no_slash, escape_applescript-literal text rest))
    ]
  ]
]
