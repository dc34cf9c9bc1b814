-- ===== src/Paths/Agreement.antt =====
-- paths.cpp and cli/src/main.cpp: both name one socket.
use agent_pulse.Base.{Text, lit, ℕ, ◌≡◌, refl, ap, ◌∙◌, false, some, [], ◌∷◌, ◌++◌, append_assoc}
use agent_pulse.Client.{default_socket_path}
use agent_pulse.Paths.{ends_with_slash, join, socket_file, paths_of}

ends-append : (a : Text) (x : ℕ) (b : Text) → ends_with_slash (a ++ x ∷ b) ≡ ends_with_slash (x ∷ b)
ends-append [] x b = refl
ends-append (c ∷ []) x b = refl
ends-append (c ∷ d ∷ a) x b = ends-append (d ∷ a) x b

-- Behind a directory that does not end with a slash.
join_plain : (a b : Text) → ends_with_slash a ≡ false → join a b ≡ a ++ b'/' ∷ b
unfolding join
join_plain a b e = rw e refl

join_more :
    (home a b : Text)
    → ends_with_slash (b'/' ∷ a) ≡ false
    → join (home ++ b'/' ∷ a) b ≡ home ++ b'/' ∷ (a ++ b'/' ∷ b)
join_more home a b e =
    join_plain (home ++ b'/' ∷ a) b (ends-append home b'/' a ∙ e)
    ∙ append_assoc home (b'/' ∷ a) (b'/' ∷ b)

-- The client looks for the socket where the daemon has it, for a home directory that does not end
-- with a slash.
pub socket_file-default_socket_path :
    (home : Text)
    → ends_with_slash home ≡ false
    → socket_file (paths_of home) ≡ default_socket_path (some home)
unfolding socket_file paths_of default_socket_path lit
socket_file-default_socket_path home e =
    let library = lit "Library" in
    let support = lit "Application Support" in
    let agent = lit "AgentPulse" in
    let file = lit "agentpulse.sock" in
    ap (λ p. join (join (join p support) agent) file) (join_plain home library e)
    ∙ ap (λ p. join (join p agent) file) (join_more home library support refl)
    ∙ ap (λ p. join p file) (join_more home (library ++ b'/' ∷ support) agent refl)
    ∙ join_more home ((library ++ b'/' ∷ support) ++ b'/' ∷ agent) file refl
