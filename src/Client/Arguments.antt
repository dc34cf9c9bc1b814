-- ===== src/Client/Arguments.antt =====
-- cli/src/main.cpp: what the loop over the arguments comes to.
use agent_pulse.Base.{
  Option-cases, ℤ, pos, ◌<ℤ◌, Text, ◌≡◌, inl, inr, true, some, List, [], ◌∷◌, arith,
}
use agent_pulse.Client.{
  Options, Parsing, options, usage, undefined, watch_number, help, socket, watched, unknown, word,
  kind_of, parse_options,
}

watch_number-positive : (arg : Text) (n : ℤ) → watch_number arg ≡ some n → pos 0 <ℤ n
unfolding watch_number
watch_number-positive arg n e = ground arith

-- The pause of the watch loop is a second or more.
abbrev pub Paced : Parsing → Type 0
Paced (options o) = pos 0 <ℤ o.watch_seconds
Paced (usage code) = Unit
Paced undefined = Unit

-- Whatever the arguments are, the pause between two requests of `--watch` is a second or more, if it
-- was so before the loop, as it is by default.
pub parse_options-Paced :
    (args : List Text) (o : Options) → pos 0 <ℤ o.watch_seconds → Paced (parse_options args o)
unfolding parse_options
parse_options-Paced [] o h = h
parse_options-Paced (arg ∷ []) o h =
    elim (kind_of arg)
      as (λ a. Paced (elim a [
        | help ↦ usage 0
        | socket ↦ usage 2
        | watched ↦ options (record o { watch = true })
        | unknown ↦ usage 2
        | word ↦ options (record o { command = arg })
      ])) [ help ↦ tt | socket ↦ tt | watched ↦ h | unknown ↦ tt | word ↦ h ]
parse_options-Paced (arg ∷ next ∷ rest) o h =
    let path = parse_options-Paced rest (record o { socket_path = next }) h in
    let bare = parse_options-Paced (next ∷ rest) (record o { watch = true }) h in
    let command = parse_options-Paced (next ∷ rest) (record o { command = arg }) h in
    elim (Option-cases (watch_number next)) [
      | inl e ↦ ground (arith, e, path, bare, command)
      | inr (n, e) ↦
          let counted =
            parse_options-Paced rest (record o { watch = true; watch_seconds = n })
              (watch_number-positive next n e) in
          ground (arith, e, path, bare, command, counted)
    ]
