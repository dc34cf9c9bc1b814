-- ===== src/Ipc/Reading.antt =====
-- socket_server.cpp, the loop of `serve_connection` that reads the request.
use agent_pulse.Base.{
  ltb, ltb→lt, lt→ltb, Bool-cases, length, All, length-append, Text, cut, ℕ, ◌+◌, ◌≤◌, ◌<◌, ◌≡◌,
  refl, sym, ap, subst, ◌∙◌, ◌≢◌, inl, inr, true, false, Option, none, some, List, [], ◌∷◌, ◌++◌,
  append_assoc, arith,
}
use agent_pulse.Base.Decimal.{Avoids}
use agent_pulse.Ipc.{
  Received, bytes, hung_up, read_interrupted, read_failed, max_request_bytes, Request, complete,
  refused, read_request,
}
use agent_pulse.Ipc.Lines.{received, Cut-cases, first_line, shorter}

abbrev pub newline : ℕ
newline = b'\n'

-- The text begins with this line and its newline.
abbrev pub StartsWithLine : Text → Text → Type 0
StartsWithLine line t = Avoids newline line × ((rest : Text) × (t ≡ line ++ newline ∷ rest))

-- The loop after a `read` that gives bytes, by what `find` says of the request so far.
after_bytes : Text → List Received → Option (Text × Text) → Request
after_bytes request reads none = read_request request reads
after_bytes request reads (some (line, rest)) = complete line

read_request_bytes :
    (request b : Text) (reads : List Received)
    → ltb (length request) max_request_bytes ≡ true
    → read_request request (bytes b ∷ reads)
      ≡ after_bytes (request ++ b) reads (cut newline (request ++ b))
unfolding read_request after_bytes
read_request_bytes request b reads h = rw (read_request, h) refl

-- A request without newline is not yet a line.
pub no_line :
    (request line rest : Text)
    → Avoids newline request
    → ◌≢◌ {A = Text} (request ++ []) (line ++ newline ∷ rest)
no_line request line rest quiet e = omega (
  arith,
  shorter newline request [] line rest quiet e,
  length-append request [],
  length-append line (newline ∷ rest),
  ap length e,
)

within_limit :
    (request more line rest : Text)
    → Avoids newline request
    → length line < max_request_bytes
    → request ++ more ≡ line ++ newline ∷ rest
    → ltb (length request) max_request_bytes ≡ true
within_limit request more line rest quiet small e =
    lt→ltb (length request) max_request_bytes
      (omega (arith, shorter newline request more line rest quiet e))

-- A line within the limit is read, however it is split.
pub read_request-complete :
    (reads : List Received) (request line rest : Text)
    → Avoids newline request
    → Avoids newline line
    → length line < max_request_bytes
    → request ++ received reads ≡ line ++ newline ∷ rest
    → read_request request reads ≡ complete line
unfolding read_request received after_bytes
read_request-complete [] request line rest quiet av small e =
    absurd (no_line request line rest quiet e)
read_request-complete (read_interrupted ∷ reads) request line rest quiet av small e =
    rw (read_request, within_limit request (received reads) line rest quiet small e)
      (read_request-complete reads request line rest quiet av small e)
read_request-complete (read_failed why ∷ reads) request line rest quiet av small e =
    absurd (no_line request line rest quiet e)
read_request-complete (hung_up ∷ reads) request line rest quiet av small e =
    absurd (no_line request line rest quiet e)
read_request-complete (bytes b ∷ reads) request line rest quiet av small e =
    let fits = within_limit request (b ++ received reads) line rest quiet small e in
    let joined = append_assoc request b (received reads) ∙ e in
    rw (read_request_bytes request b reads fits) (elim (Cut-cases newline (request ++ b)) [
      | inl (miss, quiet') ↦
          rw (miss, after_bytes)
            (read_request-complete reads (request ++ b) line rest quiet' av small joined)
      | inr (a, c, hit, av', whole) ↦
          rw (hit, after_bytes)
            (ap complete (
              first_line newline a line c (request ++ b) (received reads) rest av' av whole joined))
    ])

-- A read gives at most the size of its buffer.
abbrev pub Buffered : List Received → Type 0
Buffered = All (λ r. elim r [ bytes b ↦ length b ≤ 1024 | _ ↦ Unit ])

no_answer : (request line : Text) → read_request request [] ≢ complete line
unfolding read_request
no_answer request line e = ground arith

over_limit :
    (request : Text) (r : Received) (reads : List Received)
    → ltb (length request) max_request_bytes ≡ false
    → read_request request (r ∷ reads) ≡ refused
unfolding read_request
over_limit request r reads full = rw (read_request, full) refl

no_end :
    (request line why : Text) (reads : List Received)
    → (read_request request (hung_up ∷ reads) ≢ complete line)
      × (read_request request (read_failed why ∷ reads) ≢ complete line)
unfolding read_request
no_end request line why reads = (λ e. ground arith, λ e. ground arith)

-- This is the first line of what was read, and it is not much longer than the limit.
abbrev pub IsLine : Text → Text → List Received → Type 0
IsLine request line reads =
    Avoids newline line
    × ((rest : Text) × (request ++ received reads ≡ line ++ newline ∷ rest))
    × (Buffered reads → length line < max_request_bytes + 1024)

IsLine-bytes :
    (request b line : Text) (reads : List Received)
    → IsLine (request ++ b) line reads
    → IsLine request line (bytes b ∷ reads)
unfolding received
IsLine-bytes request b line reads (av, (rest, e), small) =
    (av, (rest, sym (append_assoc request b (received reads)) ∙ e), λ h. small h.1)

IsLine-first :
    (request b line c : Text) (reads : List Received)
    → ltb (length request) max_request_bytes ≡ true
    → Avoids newline line
    → request ++ b ≡ line ++ newline ∷ c
    → IsLine request line (bytes b ∷ reads)
unfolding received
IsLine-first request b line c reads fits av whole = (
  av,
  (
    c ++ received reads,
    sym (append_assoc request b (received reads))
        ∙ ap (λ t. t ++ received reads) whole
        ∙ append_assoc line (newline ∷ c) (received reads),
  ),
  λ h. omega (
    arith,
    ltb→lt (length request) max_request_bytes fits,
    h.0,
    length-append request b,
    length-append line (newline ∷ c),
    ap length whole,
  ),
)

read_again :
    (request : Text) (reads : List Received)
    → ltb (length request) max_request_bytes ≡ true
    → read_request request (read_interrupted ∷ reads) ≡ read_request request reads
unfolding read_request
read_again request reads fits = rw (read_request, fits) refl

complete_injective : {a b : Text} → complete a ≡ complete b → a ≡ b
complete_injective e = cc

refused_no_line : {r : Request} {line : Text} → r ≡ refused → r ≡ complete line → ⊥
refused_no_line p q = cc

-- What the loop reads as a line is one, and it is not much longer than the limit.
pub read_request-IsLine :
    (reads : List Received) (request line : Text)
    → Avoids newline request
    → read_request request reads ≡ complete line
    → IsLine request line reads
unfolding read_request received after_bytes
read_request-IsLine [] request line quiet e = absurd (no_answer request line e)
read_request-IsLine (hung_up ∷ reads) request line quiet e =
    absurd ((no_end request line [] reads).0 e)
read_request-IsLine (read_failed why ∷ reads) request line quiet e =
    absurd ((no_end request line why reads).1 e)
read_request-IsLine (read_interrupted ∷ reads) request line quiet e =
    elim (Bool-cases (ltb (length request) max_request_bytes)) [
      | inr full ↦ absurd (refused_no_line (over_limit request read_interrupted reads full) e)
      | inl fits ↦
          (let (av, found, small) =
              read_request-IsLine reads request line quiet
                (sym (read_again request reads fits) ∙ e) in
            (av, found, λ h. small h.1))
    ]
read_request-IsLine (bytes b ∷ reads) request line quiet e =
    elim (Bool-cases (ltb (length request) max_request_bytes)) [
      | inr full ↦ absurd (refused_no_line (over_limit request (bytes b) reads full) e)
      | inl fits ↦
          let step = read_request_bytes request b reads fits in
          elim (Cut-cases newline (request ++ b)) [
            | inl (miss, quiet') ↦ IsLine-bytes request b line reads (
                read_request-IsLine reads (request ++ b) line quiet'
                  (sym (step ∙ ap (after_bytes (request ++ b) reads) miss) ∙ e))
            | inr (a, c, hit, av, whole) ↦
                subst (λ x. IsLine request x (bytes b ∷ reads))
                  (complete_injective (sym (step ∙ ap (after_bytes (request ++ b) reads) hit) ∙ e))
                  (IsLine-first request b a c reads fits av whole)
          ]
    ]
